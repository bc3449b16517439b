-- ===== src/Lpss/Mtp/Assembly/Accounts.antt =====
-- modules/lpss/src/node_rmtp.cpp: what the entries of the reassembly cache hold together, and
-- how the bookkeeping of `asm_bytes` follows each write.
use rmvl.Prelude.{
  All, Bool-cases, Option, [], arith, false, if◌then◌else◌, inl, inr, length, ltb, none, refl, some,
  true, ℕ, ◌%◌, ◌+◌, ◌-◌, ◌<◌, ◌=?◌, ◌^◌, ◌∷◌, ◌≡◌, ◌≢◌, ◌≤◌, ◌⊎◌,
}
use rmvl.Bytes.{Bytes}
use rmvl.Dict.{Dict, find, put, erase}
use rmvl.Dict.Laws.{Unique}
use rmvl.Lpss.Mtp.Assembly.{
  MtpAsmKey, key_eq, key_beq_iff, Fragments, MtpAsm, sub_size, remove_expired, oldest_from,
  find_fragment, emplace_fragment,
}

-- The bytes of a set of fragments, of the entries together, and of the entry of one key.
unfoldable pub fragment_bytes : Fragments → ℕ
fragment_bytes [] = 0
fragment_bytes ((_, part) ∷ fs) = length part + fragment_bytes fs

unfoldable pub asm_total : Dict MtpAsmKey MtpAsm → ℕ
asm_total [] = 0
asm_total ((_, a) ∷ m) = a.bytes + asm_total m

unfoldable pub bytes_at : MtpAsmKey → Dict MtpAsmKey MtpAsm → ℕ
bytes_at k m = elim (find k m) [ none ↦ 0 | some a ↦ a.bytes ]

pub asm_total-put :
    (k : MtpAsmKey) (v : MtpAsm) (m : Dict MtpAsmKey MtpAsm)
    → asm_total (put k v m) + bytes_at k m ≡ asm_total m + v.bytes
unfolding asm_total put bytes_at find
asm_total-put k v [] = omega arith
asm_total-put k v ((j, w) ∷ m) = ground (arith, asm_total-put k v m)

pub asm_total-erase :
    (k : MtpAsmKey) (m : Dict MtpAsmKey MtpAsm) → asm_total (erase k m) + bytes_at k m ≡ asm_total m
unfolding asm_total erase bytes_at find
asm_total-erase k [] = omega arith
asm_total-erase k ((j, w) ∷ m) = ground (arith, asm_total-erase k m)

pub fragment_bytes-emplace :
    (id : ℕ) (part : Bytes) (fs : Fragments)
    → fragment_bytes (emplace_fragment id part fs) ≡ fragment_bytes fs + length part
unfolding fragment_bytes emplace_fragment
fragment_bytes-emplace id part [] = omega arith
fragment_bytes-emplace id part ((i, other) ∷ fs) = ground (arith, fragment_bytes-emplace id part fs)

-- The fragments stand in the order of their numbers, each number once.
abbrev pub Above : ℕ → Fragments → Type 0
Above n fs = All (λ f. n < f.0) fs

abbrev pub IsOrdered : Fragments → Type 0
IsOrdered [] = Unit
IsOrdered ((i, _) ∷ fs) = Above i fs × IsOrdered fs

pub Above-emplace :
    (n id : ℕ) (part : Bytes) (fs : Fragments)
    → n < id
    → Above n fs
    → Above n (emplace_fragment id part fs)
unfolding emplace_fragment
Above-emplace n id part [] h a = (h, tt)
Above-emplace n id part ((i, other) ∷ fs) h a = elim (Bool-cases (ltb id i)) [
  | inl e ↦ rw e (h, a)
  | inr e ↦ rw e (a.0, Above-emplace n id part fs h a.1)
]

Above-mono : (n m : ℕ) (fs : Fragments) → n < m → Above m fs → Above n fs
Above-mono n m [] h a = tt
Above-mono n m ((i, _) ∷ fs) h a = (omega arith, Above-mono n m fs h a.1)

pub IsOrdered-emplace :
    (id : ℕ) (part : Bytes) (fs : Fragments)
    → find_fragment id fs ≡ none
    → IsOrdered fs
    → IsOrdered (emplace_fragment id part fs)
unfolding emplace_fragment find_fragment
IsOrdered-emplace id part [] f o = (tt, tt)
IsOrdered-emplace id part ((i, other) ∷ fs) f o = elim (Bool-cases (ltb id i)) [
  | inl e ↦ rw e ((ground arith, Above-mono id i fs (ground arith) o.0), o)
  | inr e ↦ rw e (
    Above-emplace i id part fs (ground arith) o.0,
    IsOrdered-emplace id part fs (ground arith) o.1,
  )
]

pub remove_expired-total :
    (timeout now : ℕ) (m : Dict MtpAsmKey MtpAsm) (held : ℕ)
    → asm_total m ≤ held
    → held < 2 ^ 64
    → let r = remove_expired timeout now m held in
      (r.asm_bytes + asm_total m ≡ asm_total r.asms + held) × (asm_total r.asms ≤ asm_total m)
unfolding remove_expired asm_total sub_size
remove_expired-total timeout now [] held h small = omega arith
remove_expired-total timeout now ((k, a) ∷ m) held h small = ground (
  arith,
  remove_expired-total timeout now m held,
  remove_expired-total timeout now m ((held + 2 ^ 64 - a.bytes) % 2 ^ 64),
)

pub find-remove_expired-none :
    (timeout now : ℕ) (m : Dict MtpAsmKey MtpAsm) (held : ℕ) (q : MtpAsmKey)
    → find q m ≡ none
    → find q (remove_expired timeout now m held).asms ≡ none
unfolding remove_expired find
find-remove_expired-none timeout now [] held q h = refl
find-remove_expired-none timeout now ((k, a) ∷ m) held q h = ground (
  arith,
  find-remove_expired-none timeout now m
      (if ltb timeout (now - a.updated) then sub_size held a.bytes else held) q,
)

pub Unique-remove_expired :
    (timeout now : ℕ) (m : Dict MtpAsmKey MtpAsm) (held : ℕ)
    → Unique m
    → Unique (remove_expired timeout now m held).asms
unfolding remove_expired
Unique-remove_expired timeout now [] held h = tt
Unique-remove_expired timeout now ((k, a) ∷ m) held h =
    elim (Bool-cases (ltb timeout (now - a.updated))) [
      | inl e ↦ rw e (Unique-remove_expired timeout now m (sub_size held a.bytes) h.1)
      | inr e ↦ rw e (
        find-remove_expired-none timeout now m held k h.0,
        Unique-remove_expired timeout now m held h.1,
      )
    ]

pub All-remove_expired {ℓ} :
    (P : MtpAsmKey × MtpAsm → Type ℓ) (timeout now : ℕ) (m : Dict MtpAsmKey MtpAsm) (held : ℕ)
    → All P m
    → All P (remove_expired timeout now m held).asms
unfolding remove_expired
All-remove_expired P timeout now [] held h = tt
All-remove_expired P timeout now ((k, a) ∷ m) held h =
    elim (Bool-cases (ltb timeout (now - a.updated))) [
      | inl e ↦ rw e (All-remove_expired P timeout now m (sub_size held a.bytes) h.1)
      | inr e ↦ rw e (h.0, All-remove_expired P timeout now m held h.1)
    ]

-- An entry that is recent enough stays.
pub find-remove_expired_fresh :
    (timeout now : ℕ) (m : Dict MtpAsmKey MtpAsm) (held : ℕ) (q : MtpAsmKey) (a : MtpAsm)
    → find q m ≡ some a
    → now - a.updated ≤ timeout
    → find q (remove_expired timeout now m held).asms ≡ some a
unfolding remove_expired find
find-remove_expired_fresh timeout now [] held q a h fresh = h
find-remove_expired_fresh timeout now ((k, b) ∷ m) held q a h fresh =
    elim (Bool-cases (ltb timeout (now - b.updated))) [
      | inl e ↦
          let rest = find-remove_expired_fresh timeout now m (sub_size held b.bytes) q a in
          rw e (ground (arith, rest))
      | inr e ↦
          let rest = find-remove_expired_fresh timeout now m held q a in rw e (ground (arith, rest))
    ]

-- The entry that is chosen stands in the map, and is not the kept one.
pub oldest_from_lem :
    (kept : MtpAsmKey) (m : Dict MtpAsmKey MtpAsm) (best : Option (MtpAsmKey × MtpAsm))
    (k : MtpAsmKey) (a : MtpAsm)
    → Unique m
    → oldest_from kept m best ≡ some (k, a)
    → (best ≡ some (k, a)) ⊎ ((find k m ≡ some a) × ((k =? kept) ≡ false))
unfolding oldest_from find
oldest_from_lem kept [] best k a u h = inl h
oldest_from_lem kept ((j, b) ∷ m) best k a u h = ground (
  arith,
  key_beq_iff k j,
  oldest_from_lem kept m
      (if j =? kept then best else elim best [
        | none ↦ some (j, b)
        | some (i, c) ↦ if ltb b.updated c.updated then some (j, b) else some (i, c)
      ])
      k a u.1,
)

oldest_from-some :
    (kept : MtpAsmKey) (m : Dict MtpAsmKey MtpAsm) (k : MtpAsmKey) (a : MtpAsm)
    → oldest_from kept m (some (k, a)) ≢ none
unfolding oldest_from
oldest_from-some kept [] k a h = cc
oldest_from-some kept ((j, b) ∷ m) k a h =
    ground (arith, oldest_from-some kept m k a, oldest_from-some kept m j b)

-- No entry is chosen only where there is none but the kept one.
pub oldest_from-none :
    (kept : MtpAsmKey) (m : Dict MtpAsmKey MtpAsm)
    → oldest_from kept m none ≡ none
    → All (λ e. (e.0 =? kept) ≡ true) m
unfolding oldest_from
oldest_from-none kept [] h = tt
oldest_from-none kept ((j, b) ∷ m) h =
    ground (arith, oldest_from-some kept m j b, oldest_from-none kept m)
