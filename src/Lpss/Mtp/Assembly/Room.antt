-- ===== src/Lpss/Mtp/Assembly/Room.antt =====
-- modules/lpss/src/node_rmtp.cpp: reserve4Memory makes room whenever the kept entry alone leaves
-- room, so its rounds are enough.
use rmvl.Prelude.{
  All, Bool-cases, Option-cases, [], arith, inl, inr, leb, length, none, refl, some, suc, true,
  zero, ℕ, ◌+◌, ◌<◌, ◌=?◌, ◌^◌, ◌∙◌, ◌∷◌, ◌≡◌, ◌≤◌,
}
use rmvl.Dict.{Dict, find}
use rmvl.Dict.Laws.{Unique, length-erase, find-erase_ne, find-nonempty}
use rmvl.Lpss.Mtp.Assembly.{
  Limits, MtpAsmKey, key_eq, key_beq_iff, MtpAsm, Reassembly, add_size, remove_asm, oldest_from,
  reserve_memory,
}
use rmvl.Lpss.Mtp.Assembly.Accounts.{asm_total, oldest_from-none}
use rmvl.Lpss.Mtp.Assembly.Invariant.{IsValid, remove_asm-IsValid, add_size-exact, chosen}

-- Where no other entry is left, the cache holds the kept entry's bytes alone.
only_kept :
    (kept : MtpAsmKey) (m : Dict MtpAsmKey MtpAsm) (a : MtpAsm)
    → Unique m
    → All (λ e. (e.0 =? kept) ≡ true) m
    → find kept m ≡ some a
    → asm_total m ≡ a.bytes
unfolding find asm_total
only_kept kept [] a u h f = absurd (ground arith)
only_kept kept ((j, b) ∷ []) a u h f = ground (arith, key_beq_iff kept j, key_beq_iff j kept)
only_kept kept ((j, b) ∷ (i, c) ∷ m) a u h f =
    absurd (ground (arith, key_beq_iff j kept, key_beq_iff i kept, key_beq_iff j i))

module _ (limits : Limits) (narrow : limits.reassembly_max_bytes < 2 ^ 32) where
  -- For a byte budget below 2^32 and a cache within its invariant, making room with as many rounds
  -- as entries succeeds if the kept entry and the new bytes fit the budget alone.
  pub reserve_memory-room :
      (rounds : ℕ) (s : Reassembly) (kept : MtpAsmKey) (a : MtpAsm) (amount : ℕ)
      → IsValid limits s
      → find kept s.asms ≡ some a
      → length s.asms ≤ rounds
      → a.bytes + amount ≤ limits.reassembly_max_bytes
      → (reserve_memory rounds limits kept amount s).0 ≡ true
  unfolding reserve_memory remove_asm
  reserve_memory-room zero s kept a amount v f few h =
      absurd (omega (arith, find-nonempty kept a s.asms f))
  reserve_memory-room (suc rounds) s kept a amount v f few h =
      let sum = add_size-exact s.asm_bytes amount (omega arith) in
      elim (Bool-cases (leb (add_size s.asm_bytes amount) limits.reassembly_max_bytes)) [
        | inl e ↦ rw e refl
        | inr e ↦ elim (Option-cases (oldest_from kept s.asms none)) [
          | inl g ↦
              let alone = only_kept kept s.asms a v.unique (oldest_from-none kept s.asms g) f in
              absurd (ground (arith, sum, alone))
          | inr ((k, b), g) ↦
              let (found, other) = chosen s kept k b v g in
              rw (e, g)
                (reserve_memory-room rounds (remove_asm k b s) kept a amount
                  (remove_asm-IsValid limits narrow k b v found).0
                  (find-erase_ne k kept s.asms
                      (ground (arith, key_beq_iff k kept, key_beq_iff kept k))
                    ∙ f)
                  (omega (arith, length-erase k b s.asms found)) h)
        ]
      ]
