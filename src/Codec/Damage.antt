-- ===== src/Codec/Damage.antt =====
-- A raw form with a damaged byte, and the reading of it.
use hil_rig_protocol.Common.{
  ℕ, zero, suc, ◌+◌, ◌-◌, ◌^◌, ◌≤◌, ◌<◌, ◌≡◌, ◌≢◌, refl, ap, ◌∙◌, arith, List, [], ◌∷◌, ◌++◌,
  length, length-append, length-set, take, drop, take-append, drop-append, get_or, set, All, none,
  ◌⊎◌, inl, inr, sym,
}
use hil_rig_protocol.Types.{Status}
use hil_rig_protocol.Crc.{crc32_compute}
use hil_rig_protocol.Crc.Chunks.{crc32_compute-lt}
use hil_rig_protocol.Crc.Damage.{crc32_compute-set}
use hil_rig_protocol.Codec.{
  Frame, DecodeResult, header, covered, serialize, parse_raw, crc_size, write_u32_le, read_u32_le,
}
use hil_rig_protocol.Codec.Fields.{read_u32_le-write_u32_le}
use hil_rig_protocol.Codec.RoundTrip.{
  length-trailer, length-covered, length-serialize, header-bytes, All-append,
}

parse_raw-refused :
    (xs ys : List ℕ) (maximum : ℕ)
    → 14 ≤ length xs
    → length ys ≡ 4
    → read_u32_le ys ≢ crc32_compute xs
    → parse_raw (xs ++ ys) maximum ≡ (Status.ok, DecodeResult.integrity_invalid, none)
unfolding parse_raw
parse_raw-refused xs ys maximum long four differs =
    let total = length-append xs ys in
    let cut : length (xs ++ ys) - crc_size ≡ length xs = omega (arith, total, four) in
    let front = ap (λ n. take n (xs ++ ys)) cut ∙ take-append xs ys in
    let back = ap (λ n. drop n (xs ++ ys)) cut ∙ drop-append xs ys in
    rw (front, back) (ground (arith, total, four, differs))

set-front : (xs ys : List ℕ) (i v : ℕ) → i < length xs → set (xs ++ ys) i v ≡ set xs i v ++ ys
set-front [] ys i v h = absurd (omega arith)
set-front (x ∷ xs) ys zero v h = refl
set-front (x ∷ xs) ys (suc i) v h = ap (λ l. x ∷ l) (set-front xs ys i v (omega arith))

set-back : (xs ys : List ℕ) (i j v : ℕ) → i ≡ length xs + j → set (xs ++ ys) i v ≡ xs ++ set ys j v
set-back [] ys i j v h = ap (λ n. set ys n v) (omega (arith, h))
set-back (x ∷ xs) ys zero j v h = absurd (omega (arith, h))
set-back (x ∷ xs) ys (suc i) j v h = ap (λ l. x ∷ l) (set-back xs ys i j v (omega (arith, h)))

get_or-front : (xs ys : List ℕ) (i d : ℕ) → i < length xs → get_or (xs ++ ys) i d ≡ get_or xs i d
get_or-front [] ys i d h = absurd (omega arith)
get_or-front (x ∷ xs) ys zero d h = refl
get_or-front (x ∷ xs) ys (suc i) d h = get_or-front xs ys i d (omega arith)

get_or-back :
    (xs ys : List ℕ) (i j d : ℕ) → i ≡ length xs + j → get_or (xs ++ ys) i d ≡ get_or ys j d
get_or-back [] ys i j d h = ap (λ n. get_or ys n d) (omega (arith, h))
get_or-back (x ∷ xs) ys zero j d h = absurd (omega (arith, h))
get_or-back (x ∷ xs) ys (suc i) j d h = get_or-back xs ys i j d (omega (arith, h))

-- A replaced byte of the check value changes it.
write_u32_le-set :
    (v j b : ℕ)
    → v < 2 ^ 32
    → b < 256
    → j < 4
    → b ≢ get_or (write_u32_le v) j 0
    → read_u32_le (set (write_u32_le v) j b) ≢ v
unfolding write_u32_le read_u32_le
write_u32_le-set v zero b h k l other e = other (omega (arith, e, h, k))
write_u32_le-set v (suc zero) b h k l other e = other (omega (arith, e, h, k))
write_u32_le-set v (suc (suc zero)) b h k l other e = other (omega (arith, e, h, k))
write_u32_le-set v (suc (suc (suc zero))) b h k l other e = other (omega (arith, e, h, k))
write_u32_le-set v (suc (suc (suc (suc j)))) b h k l other e = absurd (omega (arith, l))

-- The raw form of a frame of bytes in which one byte, wherever it is, is replaced by another one is
-- reported as damaged, and stores no frame.
pub parse_raw-damaged :
    (f : Frame) (i b maximum : ℕ)
    → All (λ x. x < 256) f.payload
    → i < length (serialize f)
    → b < 256
    → b ≢ get_or (serialize f) i 0
    → parse_raw (set (serialize f) i b) maximum ≡ (Status.ok, DecodeResult.integrity_invalid, none)
unfolding serialize
parse_raw-damaged f i b maximum bytes inside low other =
    let xs = covered f in
    let check = crc32_compute xs in
    let ys = write_u32_le check in
    let bounded : All (λ x. x < 256) xs =
      unfold covered in All-append (header f) f.payload (header-bytes f) bytes in
    let small = crc32_compute-lt xs bounded in
    let back = read_u32_le-write_u32_le check small in
    let split : (i < length xs) ⊎ (length xs ≤ i) = omega arith in
    elim split [
      | inl front ↦
          let other' : b ≢ get_or xs i 0 = λ e. other (e ∙ sym (get_or-front xs ys i 0 front)) in
          ap (λ l. parse_raw l maximum) (set-front xs ys i b front)
          ∙ parse_raw-refused (set xs i b) ys maximum
              (omega (arith, length-set xs i b, length-covered f)) (length-trailer check)
              (λ e. crc32_compute-set xs i b bounded low front other' (sym e ∙ back))
      | inr behind ↦
          let at : i ≡ length xs + (i - length xs) = omega (arith, behind) in
          let other' : b ≢ get_or ys (i - length xs) 0 =
            λ e. other (e ∙ sym (get_or-back xs ys i (i - length xs) 0 at)) in
          ap (λ l. parse_raw l maximum) (set-back xs ys i (i - length xs) b at)
          ∙ parse_raw-refused xs (set ys (i - length xs) b) maximum
              (omega (arith, length-covered f))
              (length-set ys (i - length xs) b ∙ length-trailer check)
              (write_u32_le-set check (i - length xs) b small low
                (omega (arith, inside, behind, length-serialize f, length-covered f)) other')
    ]
