-- ===== src/Lpss/Guid.antt =====
-- modules/lpss/include/rmvl/lpss/details/node_util.hpp: node identifiers and locators.
-- A mask by 2^k - 1 is written `% 2 ^ k`, a shift `* 2 ^ k` or `/ 2 ^ k`, and the `|` of words that
-- share no bit is their sum.
use rmvl.Prelude.{
  Bool, Eq, [], arith, true, ℕ, ◌%◌, ◌&&◌, ◌*◌, ◌+◌, ◌/◌, ◌<◌, ◌==◌, ◌=?◌, ◌^◌, ◌↔◌, ◌∷◌, ◌≡◌,
}
use rmvl.Bytes.{Bytes, bytes_eq}

-- A GUID is its 64-bit value: 32 bits of host, 16 of process, 16 of entity.
pub record Guid : Type 0 where
  pub full : ℕ

pub guid_beq_iff : (a b : Guid) → ((a.full == b.full) ≡ true) ↔ (a ≡ b)
guid_beq_iff a b = ground arith

instance abbrev pub guid_eq : Eq Guid
guid_eq = record { beq = λ a b. a.full == b.full; beq_iff = guid_beq_iff }

unfoldable pub make_guid : ℕ → ℕ → ℕ → Guid
make_guid h p e = record { full = h * 2 ^ 32 + p * 2 ^ 16 + e }

unfoldable pub host : Guid → ℕ
host g = g.full / 2 ^ 32

unfoldable pub pid : Guid → ℕ
pid g = g.full / 2 ^ 16 % 2 ^ 16

unfoldable pub entity : Guid → ℕ
entity g = g.full % 2 ^ 16

unfoldable pub set_host : ℕ → Guid → Guid
set_host h g = record { full = h * 2 ^ 32 + g.full % 2 ^ 32 }

unfoldable pub set_pid : ℕ → Guid → Guid
set_pid p g = record { full = g.full / 2 ^ 32 * 2 ^ 32 + g.full % 2 ^ 16 + p * 2 ^ 16 }

unfoldable pub set_entity : ℕ → Guid → Guid
set_entity e g = record { full = g.full / 2 ^ 16 * 2 ^ 16 + e }

pub record Locator : Type 0 where
  pub port : ℕ
  pub addr : Bytes

-- The value-initialised locator.
abbrev pub no_locator : Locator
no_locator = record { port = 0; addr = 0 ∷ 0 ∷ 0 ∷ 0 ∷ [] }

unfoldable pub invalid : Locator → Bool
invalid l = l.port == 0 && (l.addr =? 0 ∷ 0 ∷ 0 ∷ 0 ∷ [])

-- A GUID built from a host, a process and an entity in range reads back as these three, and a
-- setter of one part gives that part its new value and leaves the other two unchanged.
pub guid_parts :
    (h p e h' p' e' : ℕ)
    → p < 2 ^ 16
    → e < 2 ^ 16
    → p' < 2 ^ 16
    → e' < 2 ^ 16
    → let g = make_guid h p e in
      (host g ≡ h)
      × (pid g ≡ p)
      × (entity g ≡ e)
      × (set_host h' g ≡ make_guid h' p e)
      × (set_pid p' g ≡ make_guid h p' e)
      × (set_entity e' g ≡ make_guid h p e')
unfolding make_guid host pid entity set_host set_pid set_entity
guid_parts h p e h' p' e' hp he hp' he' = ground arith
