-- ===== src/Lpss/Tf/Geometry.antt =====
-- modules/lpss/src/transform.cpp: vectors, quaternions and transforms. The doubles are the
-- machine's: a type, with the operations and the constants that the code uses.
use rmvl.Prelude.{Bool, Option, if◌then◌else◌, none, not, some, ℕ, ◌>>=◌, ◌||◌}

pub record Doubles : Type 1 where
  pub Double : Type 0
  pub zero : Double
  pub one : Double
  pub two : Double
  pub epsilon : Double
  pub slerp_limit : Double
  pub add : Double → Double → Double
  pub sub : Double → Double → Double
  pub mul : Double → Double → Double
  pub div : Double → Double → Double
  pub neg : Double → Double
  pub sqrt : Double → Double
  pub sin : Double → Double
  pub acos : Double → Double
  pub less : Double → Double → Bool
  pub finite : Double → Bool
  pub of_integer : ℕ → Double

module _ (F : Doubles) where
  pub record Vector3 : Type 0 where
    pub x : F.Double
    pub y : F.Double
    pub z : F.Double

  pub record Quaternion : Type 0 where
    pub x : F.Double
    pub y : F.Double
    pub z : F.Double
    pub w : F.Double

  pub record Transform : Type 0 where
    pub translation : Vector3
    pub rotation : Quaternion

  infixl 6 ◌⊕◌
  abbrev ◌⊕◌ : F.Double → F.Double → F.Double
  a ⊕ b = F.add a b

  infixl 6 ◌⊖◌
  abbrev ◌⊖◌ : F.Double → F.Double → F.Double
  a ⊖ b = F.sub a b

  infixl 7 ◌⊗◌
  abbrev ◌⊗◌ : F.Double → F.Double → F.Double
  a ⊗ b = F.mul a b

  unfoldable pub multiply : Quaternion → Quaternion → Quaternion
  multiply l r = record {
    x = l.w ⊗ r.x ⊕ l.x ⊗ r.w ⊕ l.y ⊗ r.z ⊖ l.z ⊗ r.y;
    y = l.w ⊗ r.y ⊖ l.x ⊗ r.z ⊕ l.y ⊗ r.w ⊕ l.z ⊗ r.x;
    z = l.w ⊗ r.z ⊕ l.x ⊗ r.y ⊖ l.y ⊗ r.x ⊕ l.z ⊗ r.w;
    w = l.w ⊗ r.w ⊖ l.x ⊗ r.x ⊖ l.y ⊗ r.y ⊖ l.z ⊗ r.z;
  }

  unfoldable pub rotate : Quaternion → Vector3 → Vector3
  rotate r v =
      let tx = F.two ⊗ (r.y ⊗ v.z ⊖ r.z ⊗ v.y) in
      let ty = F.two ⊗ (r.z ⊗ v.x ⊖ r.x ⊗ v.z) in
      let tz = F.two ⊗ (r.x ⊗ v.y ⊖ r.y ⊗ v.x) in
      record {
        x = v.x ⊕ r.w ⊗ tx ⊕ (r.y ⊗ tz ⊖ r.z ⊗ ty);
        y = v.y ⊕ r.w ⊗ ty ⊕ (r.z ⊗ tx ⊖ r.x ⊗ tz);
        z = v.z ⊕ r.w ⊗ tz ⊕ (r.x ⊗ ty ⊖ r.y ⊗ tx);
      }

  -- Points are vectors here: they have the same three fields.
  unfoldable pub apply_point : Transform → Vector3 → Vector3
  apply_point t p =
      let rotated = rotate t.rotation p in
      record {
        x = t.translation.x ⊕ rotated.x;
        y = t.translation.y ⊕ rotated.y;
        z = t.translation.z ⊕ rotated.z;
      }

  pub record Pose : Type 0 where
    pub position : Vector3
    pub orientation : Quaternion

  unfoldable apply_pose : Transform → Pose → Pose
  apply_pose t p = record {
    position = apply_point t p.position;
    orientation = multiply t.rotation p.orientation;
  }

  unfoldable pub compose : Transform → Transform → Transform
  compose l r = record {
    translation = apply_point l r.translation;
    rotation = multiply l.rotation r.rotation;
  }

  unfoldable pub zero_transform : Transform
  zero_transform = record {
    translation = record { x = F.zero; y = F.zero; z = F.zero };
    rotation = record { x = F.zero; y = F.zero; z = F.zero; w = F.zero };
  }

  unfoldable pub identity_transform : Transform
  identity_transform = record zero_transform {
    rotation = record { x = F.zero; y = F.zero; z = F.zero; w = F.one };
  }

  unfoldable pub norm2 : Quaternion → F.Double
  norm2 q = q.x ⊗ q.x ⊕ q.y ⊗ q.y ⊕ q.z ⊗ q.z ⊕ q.w ⊗ q.w

  unfoldable pub inverse : Transform → Transform
  inverse t =
      let q = t.rotation in
      if not (F.less F.zero (norm2 q)) || not (F.finite (norm2 q))
      then zero_transform
      else let inv_norm = F.div F.one (F.sqrt (norm2 q)) in
        let inv_rotation : Quaternion = record {
          x = F.neg q.x ⊗ inv_norm;
          y = F.neg q.y ⊗ inv_norm;
          z = F.neg q.z ⊗ inv_norm;
          w = q.w ⊗ inv_norm;
        } in
        record {
          translation = rotate inv_rotation (record {
            x = F.neg t.translation.x;
            y = F.neg t.translation.y;
            z = F.neg t.translation.z;
          });
          rotation = inv_rotation;
        }

  unfoldable pub scale : F.Double → Quaternion → Quaternion
  scale s q = record { x = q.x ⊗ s; y = q.y ⊗ s; z = q.z ⊗ s; w = q.w ⊗ s }

  -- `none` is the result false; the code then leaves the quaternion as it was.
  unfoldable pub normalize_quaternion : Quaternion → Option Quaternion
  normalize_quaternion q =
      if not (F.finite q.x) || (not (F.finite q.y) || (not (F.finite q.z) || not (F.finite q.w)))
      then none
      else if not (F.less F.epsilon (norm2 q)) || not (F.finite (norm2 q))
      then none
      else some (scale (F.div F.one (F.sqrt (norm2 q))) q)

  unfoldable pub normalize_transform : Transform → Option Transform
  normalize_transform t =
      let v = t.translation in
      if not (F.finite v.x) || (not (F.finite v.y) || not (F.finite v.z))
      then none
      else normalize_quaternion t.rotation >>= λ q. some (record t { rotation = q })

  -- A call whose result is not used.
  unfoldable pub normalized : Quaternion → Quaternion
  normalized q = elim (normalize_quaternion q) [ none ↦ q | some n ↦ n ]

  abbrev clamp : F.Double → F.Double → F.Double → F.Double
  clamp v lo hi = if F.less v lo then lo else if F.less hi v then hi else v

  blend : F.Double → F.Double → F.Double → F.Double
  blend ratio a b = a ⊕ ratio ⊗ (b ⊖ a)

  unfoldable pub slerp_from : F.Double → Quaternion → Quaternion → F.Double → Quaternion
  unfolding blend
  slerp_from dot l r ratio =
      if F.less F.slerp_limit dot
      then normalized (record {
        x = blend ratio l.x r.x;
        y = blend ratio l.y r.y;
        z = blend ratio l.z r.z;
        w = blend ratio l.w r.w;
      })
      else let theta = F.acos dot in
        let sin_theta = F.sin theta in
        let ls = F.div (F.sin ((F.one ⊖ ratio) ⊗ theta)) sin_theta in
        let rs = F.div (F.sin (ratio ⊗ theta)) sin_theta in
        record {
          x = ls ⊗ l.x ⊕ rs ⊗ r.x;
          y = ls ⊗ l.y ⊕ rs ⊗ r.y;
          z = ls ⊗ l.z ⊕ rs ⊗ r.z;
          w = ls ⊗ l.w ⊕ rs ⊗ r.w;
        }

  unfoldable pub slerp : Quaternion → Quaternion → F.Double → Quaternion
  slerp l r ratio =
      let dot = l.x ⊗ r.x ⊕ l.y ⊗ r.y ⊕ l.z ⊗ r.z ⊕ l.w ⊗ r.w in
      if F.less dot F.zero
      then slerp_from (clamp (F.neg dot) (F.neg F.one) F.one) l
          (record { x = F.neg r.x; y = F.neg r.y; z = F.neg r.z; w = F.neg r.w }) ratio
      else slerp_from (clamp dot (F.neg F.one) F.one) l r ratio

  -- Between two transforms, `part` of `whole` nanoseconds after the first.
  unfoldable pub interpolate : Transform → Transform → ℕ → ℕ → Transform
  unfolding blend
  interpolate l r part whole =
      let ratio = F.div (F.of_integer part) (F.of_integer whole) in
      let a = l.translation in
      let b = r.translation in
      record {
        translation = record {
          x = blend ratio a.x b.x;
          y = blend ratio a.y b.y;
          z = blend ratio a.z b.z;
        };
        rotation = slerp l.rotation r.rotation ratio;
      }
