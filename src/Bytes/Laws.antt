-- ===== src/Bytes/Laws.antt =====
-- Words read back from their bytes, and reads and writes at the seams of concatenations.
use rmvl.Prelude.{
  List, [], ap, append-nil, append_assoc, arith, drop, get_or, length, length-append, length-drop,
  length-replicate, none, refl, replicate, some, suc, sym, take, zero, ℕ, ◌++◌, ◌+◌, ◌/◌, ◌<◌, ◌^◌,
  ◌∙◌, ◌∷◌, ◌≡◌, ◌≤◌,
}
use rmvl.Bytes.{
  Bytes, net_u16, net_u32, host_of_net, object_bytes, object_of_bytes, slice, poke, peek,
}

pub host_of_net-net_u16 : (v : ℕ) → v < 2 ^ 16 → host_of_net 0 (net_u16 v) ≡ v
unfolding host_of_net net_u16
host_of_net-net_u16 v h = omega arith

pub host_of_net-net_u32 : (v : ℕ) → v < 2 ^ 32 → host_of_net 0 (net_u32 v) ≡ v
unfolding host_of_net net_u32
host_of_net-net_u32 v h = omega arith

pub length-net_u16 : (v : ℕ) → length (net_u16 v) ≡ 2
unfolding net_u16
length-net_u16 v = refl

pub length-net_u32 : (v : ℕ) → length (net_u32 v) ≡ 4
unfolding net_u32
length-net_u32 v = refl

pub length-object_bytes : (n v : ℕ) → length (object_bytes n v) ≡ n
unfolding object_bytes
length-object_bytes zero v = refl
length-object_bytes (suc n) v = ap suc (length-object_bytes n (v / 256))

pub object_of_bytes-object_bytes : (v : ℕ) → v < 2 ^ 64 → object_of_bytes (object_bytes 8 v) ≡ v
unfolding object_of_bytes object_bytes
object_of_bytes-object_bytes v h = omega arith

module _ {ℓ} {A : Type ℓ} where
  pub take-append_exact : (n : ℕ) (xs ys : List A) → length xs ≡ n → take n (xs ++ ys) ≡ xs
  take-append_exact zero [] ys h = refl
  take-append_exact zero (x ∷ xs) ys h = absurd (omega arith)
  take-append_exact (suc n) [] ys h = absurd (omega arith)
  take-append_exact (suc n) (x ∷ xs) ys h = ap (◌∷◌ x) (take-append_exact n xs ys (omega arith))

  pub drop-append_exact : (n : ℕ) (xs ys : List A) → length xs ≡ n → drop n (xs ++ ys) ≡ ys
  drop-append_exact zero [] ys h = refl
  drop-append_exact zero (x ∷ xs) ys h = absurd (omega arith)
  drop-append_exact (suc n) [] ys h = absurd (omega arith)
  drop-append_exact (suc n) (x ∷ xs) ys h = drop-append_exact n xs ys (omega arith)

  pub drop-append_le :
      (n : ℕ) (xs ys : List A) → n ≤ length xs → drop n (xs ++ ys) ≡ drop n xs ++ ys
  drop-append_le zero xs ys h = refl
  drop-append_le (suc n) [] ys h = absurd (omega arith)
  drop-append_le (suc n) (x ∷ xs) ys h = drop-append_le n xs ys (omega arith)

  pub take-append_le : (n : ℕ) (xs ys : List A) → n ≤ length xs → take n (xs ++ ys) ≡ take n xs
  take-append_le zero xs ys h = refl
  take-append_le (suc n) [] ys h = absurd (omega arith)
  take-append_le (suc n) (x ∷ xs) ys h = ap (◌∷◌ x) (take-append_le n xs ys (omega arith))

  pub take_all : (n : ℕ) (xs : List A) → length xs ≤ n → take n xs ≡ xs
  take_all zero [] h = refl
  take_all zero (x ∷ xs) h = absurd (omega arith)
  take_all (suc n) [] h = refl
  take_all (suc n) (x ∷ xs) h = ap (◌∷◌ x) (take_all n xs (omega arith))

  pub take-append-take : (n m : ℕ) (xs : List A) → take n xs ++ take m (drop n xs) ≡ take (n + m) xs
  take-append-take zero m xs = let e : 0 + m ≡ m = omega arith in rw e refl
  take-append-take (suc n) zero [] = let e : suc n + 0 ≡ suc n = omega arith in rw e refl
  take-append-take (suc n) (suc m) [] =
      let e : suc n + suc m ≡ suc (n + suc m) = omega arith in rw e refl
  take-append-take (suc n) m (x ∷ xs) =
      let e : suc n + m ≡ suc (n + m) = omega arith in rw e (ap (◌∷◌ x) (take-append-take n m xs))

  pub drop-drop : (n m : ℕ) (xs : List A) → drop m (drop n xs) ≡ drop (n + m) xs
  drop-drop zero m xs = let e : 0 + m ≡ m = omega arith in rw e refl
  drop-drop (suc n) zero [] = let e : suc n + 0 ≡ suc n = omega arith in rw e refl
  drop-drop (suc n) (suc m) [] = let e : suc n + suc m ≡ suc (n + suc m) = omega arith in rw e refl
  drop-drop (suc n) m (x ∷ xs) =
      let e : suc n + m ≡ suc (n + m) = omega arith in rw e (drop-drop n m xs)

pub slice-append_le :
    (off n : ℕ) (b x : Bytes) → off + n ≤ length b → slice (b ++ x) off n ≡ slice b off n
unfolding slice
slice-append_le off n b x h =
    rw (drop-append_le off b x (omega arith))
      (take-append_le n (drop off b) x (omega (arith, length-drop off b)))

-- Reading the middle part of a concatenation.
pub slice-append :
    (a b c : Bytes) (off n : ℕ) → length a ≡ off → length b ≡ n → slice (a ++ (b ++ c)) off n ≡ b
unfolding slice
slice-append a b c off n ha hb =
    rw (drop-append_exact off a (b ++ c) ha) (take-append_exact n b c hb)

pub peek-append :
    (a b c : Bytes) (off n : ℕ)
    → length a ≡ off
    → length b ≡ n
    → peek (a ++ (b ++ c)) off n ≡ some b
unfolding peek
peek-append a b c off n ha hb =
    ground (arith, slice-append a b c off n ha hb, length-append a (b ++ c), length-append b c)

pub peek_at :
    (buf a b c : Bytes) (off n : ℕ)
    → buf ≡ a ++ (b ++ c)
    → length a ≡ off
    → length b ≡ n
    → peek buf off n ≡ some b
peek_at buf a b c off n e ha hb = rw e (peek-append a b c off n ha hb)

-- Overwriting the middle part of a concatenation.
pub poke-append :
    (a b c new : Bytes) (off : ℕ)
    → length a ≡ off
    → length b ≡ length new
    → poke (a ++ (b ++ c)) off new ≡ some (a ++ (new ++ c))
unfolding poke
poke-append a b c new off ha hb =
    let regroup : a ++ (b ++ c) ≡ (a ++ b) ++ c = sym (append_assoc a b c) in
    let size : length (a ++ (b ++ c)) ≡ off + length b + length c =
      omega (arith, length-append a (b ++ c), length-append b c) in
    let seam : length (a ++ b) ≡ off + length new = omega (arith, length-append a b) in
    let kept : drop (off + length new) (a ++ (b ++ c)) ≡ c =
      rw regroup (drop-append_exact (off + length new) (a ++ b) c seam) in
    let before : take off (a ++ (b ++ c)) ≡ a = take-append_exact off a (b ++ c) ha in
    ground (arith, size, kept, before)

pub poke_last :
    (a z new : Bytes) (off : ℕ)
    → length a ≡ off
    → length z ≡ length new
    → poke (a ++ z) off new ≡ some (a ++ new)
poke_last a z new off ha hz = simp append-nil at (poke-append a z [] new off ha hz)

-- A write past the end of the buffer.
pub poke-none :
    (buf : Bytes) (off : ℕ) (bs : Bytes) → length buf < off + length bs → poke buf off bs ≡ none
unfolding poke
poke-none buf off bs h = ground arith

pub get_or-append :
    (a : Bytes) (x : ℕ) (c : Bytes) (off d : ℕ) → length a ≡ off → get_or (a ++ (x ∷ c)) off d ≡ x
get_or-append [] x c zero d h = refl
get_or-append [] x c (suc off) d h = absurd (omega arith)
get_or-append (y ∷ a) x c zero d h = absurd (omega arith)
get_or-append (y ∷ a) x c (suc off) d h = get_or-append a x c off d (omega arith)

pub replicate-append {ℓ} :
    {A : Type ℓ} (n m : ℕ) (a : A) → replicate (n + m) a ≡ replicate n a ++ replicate m a
replicate-append zero m a = let e : 0 + m ≡ m = omega arith in rw e refl
replicate-append (suc n) m a =
    let e : suc n + m ≡ suc (n + m) = omega arith in rw e (ap (◌∷◌ a) (replicate-append n m a))

-- Writing the next field into a buffer that is filled up to there, and zero after it.
pub poke-next :
    (p b : Bytes) (off k k' : ℕ)
    → length p ≡ off
    → k ≡ length b + k'
    → poke (p ++ replicate k 0) off b ≡ some ((p ++ b) ++ replicate k' 0)
poke-next p b off k k' hp hk =
    rw (hk, replicate-append {A = ℕ} (length b) k' 0)
      (poke-append p (replicate (length b) 0) (replicate k' 0) b off hp
          (length-replicate (length b) 0)
        ∙ ap some (sym (append_assoc p b (replicate k' 0))))

pub poke_end :
    (p b : Bytes) (off k : ℕ)
    → length p ≡ off
    → k ≡ length b
    → poke (p ++ replicate k 0) off b ≡ some (p ++ b)
poke_end p b off k hp hk = poke-next p b off k 0 hp (omega arith) ∙ ap some (append-nil (p ++ b))
