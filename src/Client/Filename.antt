-- ===== src/Client/Filename.antt =====
-- client/clrecv.c: the name under which the client stores a file that it receives. A C string is
-- the list of the bytes before its closing zero.
use lwmsg.Base.{
  ℕ, zero, suc, ◌+◌, ◌-◌, ◌/◌, ◌%◌, Bool, ◌||◌, Option, none, some, List, [], ◌∷◌, ◌++◌, ltb, ◌==◌,
  if◌then◌else◌, length, take, drop, min,
}
use lwmsg.Lwmp.{optdata_size}
use lwmsg.Session.Message.{text_bytes}
use lwmsg.Client.{str_eq}

-- The string from the last `c` on.
unfoldable pub strrchr : ℕ → List ℕ → Option (List ℕ)
strrchr c [] = none
strrchr c (x ∷ s) = elim (strrchr c s) [
  | some p ↦ some p
  | none ↦ if x == c then some (x ∷ s) else none
]

-- `p ? p + 1 : base`.
abbrev pub pointed : List ℕ → Option (List ℕ) → List ℕ
pointed base none = base
pointed base (some p) = drop 1 p

abbrev pub after_last : ℕ → List ℕ → List ℕ
after_last c s = pointed s (strrchr c s)

abbrev pub slash : ℕ
slash = 0x2F

abbrev pub backslash : ℕ
backslash = 0x5C

abbrev pub dot_char : ℕ
dot_char = 0x2E

abbrev pub default_name : List ℕ
default_name = text_bytes "received_file"

-- `!base[0] || strcmp(base, ".") == 0 || strcmp(base, "..") == 0`.
abbrev pub is_special : List ℕ → Bool
is_special base =
    length base == 0 || str_eq base (dot_char ∷ []) || str_eq base (dot_char ∷ dot_char ∷ [])

unfoldable pub sanitize_filename : List ℕ → List ℕ
unfolding strrchr
sanitize_filename raw =
    let base = after_last backslash (after_last slash raw) in
    if is_special base then default_name else base

abbrev pub max_dedup_attempts : ℕ
max_dedup_attempts = 10000

-- The digits of `%u`, before `acc`. Each round of the fuel is one digit.
unfoldable pub decimal : ℕ → ℕ → List ℕ → List ℕ
decimal zero n acc = acc
decimal (suc fuel) n acc =
    let digits = (0x30 + n % 10) ∷ acc in
    let more = decimal fuel (n / 10) digits in if ltb n 10 then digits else more

-- `(%u)`, for numbers of a uint32_t.
unfoldable pub dedup_suffix : ℕ → List ℕ
unfolding decimal
dedup_suffix n = 0x28 ∷ (decimal 10 n [] ++ 0x29 ∷ [])

-- `ext`: from the last dot on, unless the name begins with it.
unfoldable pub extension : List ℕ → List ℕ
unfolding strrchr
extension desired = elim (strrchr dot_char desired) [
  | none ↦ []
  | some dot ↦ if ltb (length dot) (length desired) then dot else []
]

-- The name of a round of the loop: snprintf keeps `out_cap - 1` bytes.
unfoldable pub dedup_name : List ℕ → ℕ → ℕ → List ℕ
unfolding extension dedup_suffix
dedup_name desired out_cap n =
    let ext = extension desired in
    let suffix = dedup_suffix n in
    let maxlen = min optdata_size (out_cap - 1) in
    let use_stem = min (length desired - length ext) (maxlen - (length ext + length suffix)) in
    take (out_cap - 1) (take use_stem desired ++ (suffix ++ ext))

-- The loop, from the number `n` on with `rounds` left; `access` says which names exist.
unfoldable pub dedup_loop : ℕ → ℕ → (List ℕ → Bool) → List ℕ → ℕ → List ℕ → List ℕ
dedup_loop zero n access desired out_cap out = out
dedup_loop (suc rounds) n access desired out_cap out =
    let out' = dedup_name desired out_cap n in
    let rest = dedup_loop rounds (n + 1) access desired out_cap out' in
    if access out' then rest else out'

unfoldable pub make_unique_filename : (List ℕ → Bool) → List ℕ → ℕ → List ℕ
unfolding dedup_loop
make_unique_filename access desired out_cap =
    let out = take (out_cap - 1) desired in
    let rest = dedup_loop max_dedup_attempts 1 access desired out_cap out in
    if access out then rest else out
