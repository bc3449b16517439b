-- ===== src/Lpss/Mtp/Assembly/Invariant.antt =====
-- modules/lpss/src/node_rmtp.cpp: the invariant of the reassembly cache, and that every step of
-- accept_fragment keeps it.
use rmvl.Prelude.{
  All, Bool, Bool-cases, Option-cases, arith, false, inl, inr, leb, none, refl, some, suc, true,
  zero, ℕ, ◌%◌, ◌+◌, ◌<◌, ◌=?◌, ◌^◌, ◌∙◌, ◌≡◌, ◌≤◌,
}
use rmvl.Bytes.{bytes_eq}
use rmvl.Dict.{find, put}
use rmvl.Dict.Laws.{Unique, Unique-put, Unique-erase, All-put, All-erase, find-erase_ne}
use rmvl.Lpss.Mtp.Assembly.{
  Limits, MtpAsmKey, key_eq, key_beq_iff, MtpAsm, Reassembly, empty, add_size, sub_size, remove_asm,
  remove_expired, oldest_from, reserve_memory,
}
use rmvl.Lpss.Mtp.Assembly.Accounts.{
  fragment_bytes, asm_total, bytes_at, asm_total-put, asm_total-erase, IsOrdered,
  remove_expired-total, Unique-remove_expired, All-remove_expired, oldest_from_lem,
}

-- An entry counts the bytes of its fragments, which are no more than the message's, and keeps its
-- fragments in order.
pub record IsWf (limits : Limits) (a : MtpAsm) : Type 0 where
  pub counted : a.bytes ≡ fragment_bytes a.fragments
  pub within : a.bytes ≤ a.total_size
  pub sized : a.total_size ≤ limits.reassembly_max_bytes
  pub ordered : IsOrdered a.fragments

-- The cache counts the bytes of its entries, keeps to its budget, and has one entry for each key.
pub record IsValid (limits : Limits) (s : Reassembly) : Type 0 where
  pub accounted : s.asm_bytes ≡ asm_total s.asms
  pub bounded : s.asm_bytes ≤ limits.reassembly_max_bytes
  pub unique : Unique s.asms
  pub entries : All (λ e. IsWf limits e.1) s.asms

pub empty-IsValid : (limits : Limits) → IsValid limits empty
unfolding asm_total
empty-IsValid limits = record { accounted = refl; bounded = omega arith; unique = tt; entries = tt }

pub bytes_at-found :
    (key : MtpAsmKey) (s : Reassembly) (a : MtpAsm)
    → find key s.asms ≡ some a
    → bytes_at key s.asms ≡ a.bytes
unfolding bytes_at
bytes_at-found key s a h = rw (h, bytes_at) refl

pub add_size-exact : (a b : ℕ) → a + b < 2 ^ 64 → add_size a b ≡ a + b
unfolding add_size
add_size-exact a b h = omega arith

pub chosen :
    {limits : Limits} (s : Reassembly) (kept k : MtpAsmKey) (a : MtpAsm)
    → IsValid limits s
    → oldest_from kept s.asms none ≡ some (k, a)
    → (find k s.asms ≡ some a) × ((k =? kept) ≡ false)
chosen s kept k a v f = ground (arith, oldest_from_lem kept s.asms none k a v.unique f)

module _ (limits : Limits) (narrow : limits.reassembly_max_bytes < 2 ^ 32) where
  pub remove_asm-IsValid :
      {s : Reassembly} (key : MtpAsmKey) (a : MtpAsm)
      → IsValid limits s
      → find key s.asms ≡ some a
      → IsValid limits (remove_asm key a s)
        × ((remove_asm key a s).asm_bytes + a.bytes ≡ s.asm_bytes)
  unfolding remove_asm sub_size
  remove_asm-IsValid {s} key a v f =
      let held = asm_total-erase key s.asms in
      let here = bytes_at-found key s a f in
      (
        record {
          accounted = omega (arith, held, here);
          bounded = omega (arith, held, here);
          unique = Unique-erase key s.asms v.unique;
          entries = All-erase _ key s.asms v.entries;
        },
        omega (arith, held, here),
      )

  pub put-IsValid :
      {s : Reassembly} (key : MtpAsmKey) (a : MtpAsm) (held : ℕ)
      → IsValid limits s
      → IsWf limits a
      → held + bytes_at key s.asms ≡ s.asm_bytes + a.bytes
      → held ≤ limits.reassembly_max_bytes
      → IsValid limits (record { asms = put key a s.asms; asm_bytes = held })
  put-IsValid {s} key a held v w e b = record {
    accounted = omega (arith, asm_total-put key a s.asms);
    bounded = b;
    unique = Unique-put key a s.asms v.unique;
    entries = All-put _ key a s.asms w v.entries;
  }

  pub remove_expired-IsValid :
      {s : Reassembly} (now : ℕ)
      → IsValid limits s
      → IsValid limits (remove_expired limits.fragment_timeout now s.asms s.asm_bytes)
  remove_expired-IsValid {s} now v =
      let t =
        remove_expired-total limits.fragment_timeout now s.asms s.asm_bytes (omega arith)
          (omega arith) in
      record {
        accounted = omega (arith, t);
        bounded = omega (arith, t);
        unique = Unique-remove_expired limits.fragment_timeout now s.asms s.asm_bytes v.unique;
        entries = All-remove_expired _ limits.fragment_timeout now s.asms s.asm_bytes v.entries;
      }

  -- Making room keeps the invariant and the kept key's entry, and where it reports room there is.
  pub record Reserved (kept : MtpAsmKey) (amount : ℕ) (s : Reassembly) (r : Bool × Reassembly)
      : Type 0 where
    pub valid : IsValid limits r.1
    pub kept_entry : find kept r.1.asms ≡ find kept s.asms
    pub room : r.0 ≡ true → r.1.asm_bytes + amount ≤ limits.reassembly_max_bytes

  pub reserve_memory-Reserved :
      (rounds : ℕ) (s : Reassembly) (kept : MtpAsmKey) (amount : ℕ)
      → IsValid limits s
      → amount < 2 ^ 32
      → Reserved kept amount s (reserve_memory rounds limits kept amount s)
  unfolding reserve_memory add_size remove_asm
  reserve_memory-Reserved zero s kept amount v h = record {
    valid = v;
    kept_entry = refl;
    room = ground arith;
  }
  reserve_memory-Reserved (suc rounds) s kept amount v h =
      elim (Bool-cases (leb ((s.asm_bytes + amount) % 2 ^ 64) limits.reassembly_max_bytes)) [
        | inl e ↦ rw e (record { valid = v; kept_entry = refl; room = ground arith })
        | inr e ↦ rw e (elim (Option-cases (oldest_from kept s.asms none)) [
          | inl f ↦ rw f (record { valid = v; kept_entry = refl; room = cc })
          | inr ((k, a), f) ↦
              let (found, other) = chosen s kept k a v f in
              let ih =
                reserve_memory-Reserved rounds (remove_asm k a s) kept amount
                  (remove_asm-IsValid k a v found).0 h in
              rw f (record {
                valid = ih.valid;
                kept_entry =
                    ih.kept_entry
                    ∙ find-erase_ne k kept s.asms
                        (ground (arith, key_beq_iff k kept, key_beq_iff kept k));
                room = ih.room;
              })
        ])
      ]
