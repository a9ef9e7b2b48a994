-- ===== src/Client/SafeName.antt =====
-- The names that client/clrecv.c makes for received files stay in the directory of the client.
use lwmsg.Base.{
  ℕ, zero, suc, ◌+◌, ◌-◌, ◌/◌, ◌%◌, ◌≤◌, ◌<◌, ◌≡◌, ◌≢◌, ◌⊎◌, inl, inr, refl, sym, ap, ◌∙◌, subst,
  arith, Bool, false, Bool-cases, none, some, List, [], ◌∷◌, ◌++◌, ltb, ◌==◌, length, take, min,
  All, length-take, take_all,
}
use lwmsg.Lwmp.{optdata_size}
use lwmsg.Session.Message.{text_bytes}
use lwmsg.Client.{str_eq}
use lwmsg.Client.Filename.{
  strrchr, pointed, after_last, slash, backslash, dot_char, is_special, default_name,
  sanitize_filename, decimal, dedup_suffix, extension, dedup_name, dedup_loop, max_dedup_attempts,
  make_unique_filename,
}
use lwmsg.Client.Transfer.{str_eq_refl}
use lwmsg.Client.Rest.{if_lem}

abbrev pub IsPlain : ℕ → Type 0
IsPlain b = (b ≢ slash) × (b ≢ backslash)

-- A name of a file of the client's directory: no separator, not empty, and neither "." nor "..".
pub record IsSafeName (name : List ℕ) : Type 0 where
  pub plain : All IsPlain name
  pub not_nil : name ≢ []
  pub not_here : name ≢ dot_char ∷ []
  pub not_parent : name ≢ dot_char ∷ dot_char ∷ []

pub All-append {ℓ} :
    {A : Type 0} (P : A → Type ℓ) (xs ys : List A) → All P xs → All P ys → All P (xs ++ ys)
All-append P [] ys h k = k
All-append P (x ∷ xs) ys (p, h) k = (p, All-append P xs ys h k)

All-take {ℓ} : {A : Type 0} (P : A → Type ℓ) (n : ℕ) (xs : List A) → All P xs → All P (take n xs)
All-take P zero xs h = tt
All-take P (suc n) [] h = tt
All-take P (suc n) (x ∷ xs) (p, h) = (p, All-take P n xs h)

-- What strrchr finds is the `c`, and what follows has none.
strrchr-cases :
    (P : ℕ → Type 0) (c : ℕ) (s : List ℕ)
    → All P s
    → ((strrchr c s ≡ none) × All (λ b. b ≢ c) s)
      ⊎ ((q : List ℕ) × (strrchr c s ≡ some (c ∷ q)) × All (λ b. b ≢ c) q × All P (c ∷ q))
unfolding strrchr
strrchr-cases P c [] h = inl (refl, tt)
strrchr-cases P c (x ∷ s) (p, h) = elim (strrchr-cases P c s h) [
  | inr (q, e, clean, ps) ↦ inr (q, rw (e, strrchr) refl, clean, ps)
  | inl (e, clean) ↦ elim (Bool-cases (x == c)) [
    | inl same ↦
        let x_c : x ≡ c = ground arith in
        inr (s, rw (e, same, strrchr) (ap (λ y. some (y ∷ s)) x_c), clean, (subst P x_c p, h))
    | inr other ↦ inl (rw (e, other, strrchr) refl, (ground arith, clean))
  ]
]

keep :
    (P : ℕ → Type 0) (c : ℕ) {b b' : List ℕ}
    → b ≡ b'
    → All P b
    → All (λ x. x ≢ c) b
    → All P b' × All (λ x. x ≢ c) b'
keep P c e p q = (subst (All P) e p, subst (All (λ x. x ≢ c)) e q)

after_last-All :
    (P : ℕ → Type 0) (c : ℕ) (s : List ℕ)
    → All P s
    → All P (after_last c s) × All (λ b. b ≢ c) (after_last c s)
after_last-All P c s h = elim (strrchr-cases P c s h) [
  | inl (e, clean) ↦ keep P c (sym (ap (pointed s) e)) h clean
  | inr (q, e, clean, ps) ↦ keep P c (sym (ap (pointed s) e)) ps.1 clean
]

All-zip : (P Q : ℕ → Type 0) (s : List ℕ) → All P s → All Q s → All (λ b. P b × Q b) s
All-zip P Q [] h k = tt
All-zip P Q (x ∷ s) (p, h) (q, k) = ((p, q), All-zip P Q s h k)

All-any : (s : List ℕ) → All (λ b. Unit {0}) s
All-any [] = tt
All-any (x ∷ s) = (tt, All-any s)

not-special : (base : List ℕ) → is_special base ≡ false → All IsPlain base → IsSafeName base
not-special base e h = record {
  plain = h;
  not_nil = λ q. ground (arith, ap length q);
  not_here =
      λ q. ground (arith, e, ap (λ z. str_eq z (dot_char ∷ [])) q ∙ str_eq_refl (dot_char ∷ []));
  not_parent = λ q. ground (
    arith,
    e,
    ap (λ z. str_eq z (dot_char ∷ dot_char ∷ [])) q ∙ str_eq_refl (dot_char ∷ dot_char ∷ []),
  );
}

default-IsSafeName : IsSafeName default_name
unfolding text_bytes
default-IsSafeName = record {
  plain = omega arith;
  not_nil = λ q. cc;
  not_here = λ q. cc;
  not_parent = λ q. cc;
}

pub sanitize-IsSafeName : (raw : List ℕ) → IsSafeName (sanitize_filename raw)
unfolding sanitize_filename
sanitize-IsSafeName raw =
    let first = after_last slash raw in
    let no_slash = (after_last-All (λ b. Unit {0}) slash raw (All-any raw)).1 in
    let base = after_last backslash first in
    let (no_slash', no_back) = after_last-All (λ b. b ≢ slash) backslash first no_slash in
    let plain = All-zip (λ b. b ≢ slash) (λ b. b ≢ backslash) base no_slash' no_back in
    elim (Bool-cases (is_special base)) [
      | inl e ↦ rw e default-IsSafeName
      | inr e ↦ rw e (not-special base e plain)
    ]

-- The name that make_unique_filename gives.
HasByte : ℕ → List ℕ → Type 0
HasByte c [] = ⊥
HasByte c (b ∷ s) = (b ≡ c) ⊎ HasByte c s

take-HasByte : (c n : ℕ) (s t : List ℕ) → length s < n → HasByte c (take n (s ++ c ∷ t))
unfolding HasByte
take-HasByte c zero s t h = absurd (omega arith)
take-HasByte c (suc n) [] t h = inl refl
take-HasByte c (suc n) (b ∷ s) t h = inr (take-HasByte c n s t (omega arith))

bracket-IsSafeName : (name : List ℕ) → All IsPlain name → HasByte 0x28 name → IsSafeName name
unfolding HasByte
bracket-IsSafeName name plain has = record {
  plain = plain;
  not_nil = λ q. subst (HasByte 0x28) q has;
  not_here = λ q. ground (arith, subst (HasByte 0x28) q has);
  not_parent = λ q. ground (arith, subst (HasByte 0x28) q has);
}

decimal-IsPlain : (fuel n : ℕ) (acc : List ℕ) → All IsPlain acc → All IsPlain (decimal fuel n acc)
unfolding decimal
decimal-IsPlain zero n acc h = h
decimal-IsPlain (suc fuel) n acc h =
    let digit : IsPlain (0x30 + n % 10) = omega arith in
    if_lem (All IsPlain) (ltb n 10) (λ _. (digit, h))
      (λ _. decimal-IsPlain fuel (n / 10) ((0x30 + n % 10) ∷ acc) (digit, h))

extension-IsPlain : (s : List ℕ) → All IsPlain s → All IsPlain (extension s)
unfolding extension
extension-IsPlain s h = elim (strrchr-cases IsPlain dot_char s h) [
  | inl (e, clean) ↦ rw (e, extension) tt
  | inr (q, e, clean, ps) ↦
      rw (e, extension)
        (if_lem (All IsPlain) (ltb (length (dot_char ∷ q)) (length s)) (λ _. ps) (λ _. tt))
]

dedup_name-IsSafeName :
    (desired : List ℕ) (n : ℕ)
    → All IsPlain desired
    → IsSafeName (dedup_name desired (optdata_size + 1) n)
unfolding dedup_name dedup_suffix
dedup_name-IsSafeName desired n h =
    let ext = extension desired in
    let digits = decimal 10 n [] ++ 0x29 ∷ [] in
    let maxlen = min optdata_size optdata_size in
    let fixed = length ext + length (dedup_suffix n) in
    let stem = take (min (length desired - length ext) (maxlen - fixed)) desired in
    let number =
      All-append IsPlain (decimal 10 n []) (0x29 ∷ []) (decimal-IsPlain 10 n [] tt) (omega arith) in
    bracket-IsSafeName (dedup_name desired (optdata_size + 1) n)
      (All-take IsPlain 32 (stem ++ (dedup_suffix n ++ ext)) (
        All-append IsPlain stem (dedup_suffix n ++ ext)
          (All-take IsPlain (min (length desired - length ext) (maxlen - fixed)) desired h)
          (omega arith, All-append IsPlain digits ext number (extension-IsPlain desired h))))
      (take-HasByte 0x28 32 stem (digits ++ ext)
        (omega (arith, length-take (min (length desired - length ext) (maxlen - fixed)) desired)))

dedup_loop-IsSafeName :
    (rounds n : ℕ) (access : List ℕ → Bool) (desired out : List ℕ)
    → All IsPlain desired
    → IsSafeName out
    → IsSafeName (dedup_loop rounds n access desired (optdata_size + 1) out)
unfolding dedup_loop
dedup_loop-IsSafeName zero n access desired out h v = v
dedup_loop-IsSafeName (suc rounds) n access desired out h v =
    let v' = dedup_name-IsSafeName desired n h in
    if_lem IsSafeName (access (dedup_name desired (optdata_size + 1) n))
      (λ _.
        dedup_loop-IsSafeName rounds (n + 1) access desired
          (dedup_name desired (optdata_size + 1) n) h v')
      (λ _. v')

pub make_unique-IsSafeName :
    (access : List ℕ → Bool) (desired : List ℕ)
    → IsSafeName desired
    → length desired ≤ optdata_size
    → IsSafeName (make_unique_filename access desired (optdata_size + 1))
unfolding make_unique_filename
make_unique-IsSafeName access desired v short =
    let v' : IsSafeName (take 32 desired) = subst IsSafeName (sym (take_all 32 desired short)) v in
    if_lem IsSafeName (access (take 32 desired))
      (λ _. dedup_loop-IsSafeName max_dedup_attempts 1 access desired (take 32 desired) v.plain v')
      (λ _. v')
