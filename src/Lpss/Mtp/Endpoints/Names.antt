-- ===== src/Lpss/Mtp/Endpoints/Names.antt =====
-- modules/lpss/src/node_rmtp.cpp: the names of the shared-memory channels tell them apart.
use rmvl.Prelude.{
  Bool-cases, [], ap, append-nil, append_assoc, arith, drop, if◌then◌else◌, inl, inr, leb, ltb,
  refl, suc, sym, zero, ℕ, ◌%◌, ◌&&◌, ◌*◌, ◌++◌, ◌+◌, ◌-◌, ◌/◌, ◌<◌, ◌^◌, ◌∙◌, ◌∷◌, ◌≡◌,
}
use rmvl.Bytes.{decimal_from, decimal, Bytes, codes}
use rmvl.Lpss.Guid.{Guid}
use rmvl.Lpss.Mtp.Endpoints.{shm_channel_name}

-- Reads the digits at the front: `acc` is the number that the digits before them make.
read_number : ℕ → Bytes → ℕ × Bytes
read_number acc [] = (acc, [])
read_number acc (c ∷ cs) =
    let rest = read_number (acc * 10 + (c - 48)) cs in
    if leb 48 c && leb c 57 then rest else (acc, c ∷ cs)

read_number-digit :
    (acc d : ℕ) (cs : Bytes)
    → d < 10
    → read_number acc ((48 + d) ∷ cs) ≡ read_number (acc * 10 + d) cs
unfolding read_number
read_number-digit acc d cs h = let value : 48 + d - 48 ≡ d = omega arith in ground (arith, value)

read_number-decimal_from :
    (fuel n : ℕ) (cs : Bytes)
    → n < 10 ^ fuel
    → read_number 0 (decimal_from fuel n ++ cs) ≡ read_number n cs
unfolding decimal_from
read_number-decimal_from zero n cs h = ap (λ k. read_number k cs) (omega arith)
read_number-decimal_from (suc fuel) n cs h = elim (Bool-cases (ltb n 10)) [
  | inl small ↦
      rw small (read_number-digit 0 n cs (ground arith) ∙ ap (λ k. read_number k cs) (omega arith))
  | inr large ↦
      let d = n % 10 in
      let whole : n / 10 * 10 + d ≡ n = omega arith in
      rw (large, append_assoc (decimal_from fuel (n / 10)) ((48 + d) ∷ []) cs)
        (read_number-decimal_from fuel (n / 10) ((48 + d) ∷ cs) (omega arith)
          ∙ read_number-digit (n / 10) d cs (omega arith)
          ∙ ap (λ k. read_number k cs) whole)
]

read_number-decimal :
    (n : ℕ) (cs : Bytes) → n < 2 ^ 64 → read_number 0 (decimal n ++ cs) ≡ read_number n cs
unfolding decimal
read_number-decimal n cs h = read_number-decimal_from 20 n cs (omega arith)

-- What the name says of its writer and reader.
read_name : Bytes → ℕ × ℕ
read_name name =
    let (writer, rest) = read_number 0 (drop 9 name) in (writer, (read_number 0 (drop 1 rest)).0)

read_name-shm_channel_name :
    (w r : Guid)
    → w.full < 2 ^ 64
    → r.full < 2 ^ 64
    → read_name (shm_channel_name w r) ≡ (w.full, r.full)
unfolding read_name shm_channel_name read_number
read_name-shm_channel_name w r hw hr =
    let first = read_number-decimal w.full (codes "_" ++ decimal r.full) hw in
    let second : read_number 0 (decimal r.full) ≡ (r.full, []) =
      rw append-nil at (read_number-decimal r.full [] hr) in
    rw (append_assoc (decimal w.full) (codes "_") (decimal r.full), first, second) refl

-- Two pairs of a writer and a reader, all of them 64-bit GUIDs, that have the same channel name are
-- the same pair.
pub shm_channel_name-injective :
    (w r w' r' : Guid)
    → w.full < 2 ^ 64
    → r.full < 2 ^ 64
    → w'.full < 2 ^ 64
    → r'.full < 2 ^ 64
    → shm_channel_name w r ≡ shm_channel_name w' r'
    → (w ≡ w') × (r ≡ r')
shm_channel_name-injective w r w' r' hw hr hw' hr' e =
    let same : (w.full, r.full) ≡ (w'.full, r'.full) =
      sym (read_name-shm_channel_name w r hw hr)
      ∙ ap read_name e
      ∙ read_name-shm_channel_name w' r' hw' hr' in
    (ground (arith, same), ground (arith, same))
