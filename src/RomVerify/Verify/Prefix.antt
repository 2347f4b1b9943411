-- ===== src/RomVerify/Verify/Prefix.antt =====
-- The loop of `verify` is a comparison with a prefix of the digest.
use genode_world.Prelude.{
  ℕ, ◌/◌, ◌≡◌, ◌↔◌, refl, sym, ap, ◌∙◌, ◌==◌, true, List, [], ◌∷◌, ◌++◌, Option, none, some, length,
  map, u8, arith, inl, inr, Bool-cases, if-true, if-false,
}
use genode_world.RomVerify.Verify.{
  Crypto, Policy, Verdict, accepted, service_denied, beyond, compare_digest, verify, check_policy,
  try_attribute,
}

-- The bytes of a list.
abbrev pub to_bytes : List ℕ → List ℕ
to_bytes xs = map u8 xs

abbrev pub IsPrefix : List ℕ → List ℕ → Type 0
IsPrefix xs ys = (rest : List ℕ) × (ys ≡ xs ++ rest)

prefix-of-accepted :
    (digest target : List ℕ)
    → compare_digest digest target ≡ accepted
    → IsPrefix (to_bytes target) (to_bytes digest)
unfolding compare_digest
prefix-of-accepted digest [] h = (to_bytes digest, refl)
prefix-of-accepted [] (t ∷ target) h = cc
prefix-of-accepted (d ∷ digest) (t ∷ target) h = elim (Bool-cases (u8 d == u8 t)) [
  | inl y ↦
      let p = prefix-of-accepted digest target (sym (if-true _ _ _ y) ∙ h) in
      let same : u8 d ≡ u8 t = ground arith in
      (p.0, ap (λ c. c ∷ to_bytes digest) same ∙ ap (λ cs. u8 t ∷ cs) p.1)
  | inr n ↦ let both = sym (if-false _ _ _ n) ∙ h in cc
]

accepted-of-prefix :
    (digest target : List ℕ)
    → IsPrefix (to_bytes target) (to_bytes digest)
    → compare_digest digest target ≡ accepted
unfolding compare_digest
accepted-of-prefix digest [] p = refl
accepted-of-prefix [] (t ∷ target) (rest, e) = cc
accepted-of-prefix (d ∷ digest) (t ∷ target) (rest, e) =
    let same : u8 d ≡ u8 t = cc in
    let tail : to_bytes digest ≡ to_bytes target ++ rest = cc in
    let y : (u8 d == u8 t) ≡ true = ground arith in
    if-true _ _ _ y ∙ accepted-of-prefix digest target (rest, tail)

compare-beyond :
    (digest target rest : List ℕ) (t : ℕ)
    → to_bytes target ≡ to_bytes digest ++ (t ∷ rest)
    → compare_digest digest target ≡ beyond
unfolding compare_digest
compare-beyond [] [] rest t e = cc
compare-beyond (d ∷ digest) [] rest t e = cc
compare-beyond [] (x ∷ target) rest t e = refl
compare-beyond (d ∷ digest) (x ∷ target) rest t e =
    let same : u8 x ≡ u8 d = cc in
    let tail : to_bytes target ≡ to_bytes digest ++ (t ∷ rest) = cc in
    let y : (u8 d == u8 x) ≡ true = ground arith in
    if-true _ _ _ y ∙ compare-beyond digest target rest t tail

-- The hash function and the attribute that decide, by the order in which the attributes are tried.
pub record Selection : Type 0 where
  pub hash : List ℕ → List ℕ
  pub attr : List ℕ

abbrev pub or_else : Option Selection → Option Selection → Option Selection
or_else none rest = rest
or_else (some s) rest = some s

abbrev pub select : (List ℕ → List ℕ → List ℕ) → Option (List ℕ) → Option Selection
select hash none = none
select hash (some attr) = some (record { hash = hash attr; attr = attr })

abbrev pub selected : Crypto → Policy → Option Selection
selected crypto policy = or_else (select (λ attr. crypto.sha3 (length attr / 2)) policy.sha3_attr) (
    or_else (select (λ attr. crypto.sha512) policy.sha512_attr) (
      or_else (select (λ attr. crypto.sha256) policy.sha256_attr)
        (or_else (select (λ attr. crypto.sha1) policy.sha1_attr) none)))

abbrev pub decide : Crypto → List ℕ → Option Selection → Verdict
decide crypto rom none = service_denied
decide crypto rom (some s) = verify crypto s.hash s.attr rom

try-decide :
    (crypto : Crypto) (rom : List ℕ) (hash : List ℕ → List ℕ → List ℕ) (attr : Option (List ℕ))
    (rest : Option Selection)
    → try_attribute (λ a. verify crypto (hash a) a rom) attr (decide crypto rom rest)
      ≡ decide crypto rom (or_else (select hash attr) rest)
try-decide crypto rom hash none rest = refl
try-decide crypto rom hash (some a) rest = refl

check_policy-decide :
    (crypto : Crypto) (policy : Policy) (rom : List ℕ)
    → check_policy crypto policy rom ≡ decide crypto rom (selected crypto policy)
unfolding check_policy
check_policy-decide crypto policy rom =
    let fourth = try-decide crypto rom (λ attr. crypto.sha1) policy.sha1_attr none in
    let third =
      ap (try_attribute (λ attr. verify crypto crypto.sha256 attr rom) policy.sha256_attr) fourth
      ∙ try-decide crypto rom (λ attr. crypto.sha256) policy.sha256_attr _ in
    let second =
      ap (try_attribute (λ attr. verify crypto crypto.sha512 attr rom) policy.sha512_attr) third
      ∙ try-decide crypto rom (λ attr. crypto.sha512) policy.sha512_attr _ in
    ap
      (try_attribute (λ attr. verify crypto (crypto.sha3 (length attr / 2)) attr rom)
        policy.sha3_attr)
      second
    ∙ try-decide crypto rom (λ attr. crypto.sha3 (length attr / 2)) policy.sha3_attr _

-- The attribute that decides names a prefix of the digest.
abbrev pub Confirmed : Crypto → List ℕ → Option Selection → Type 0
Confirmed crypto rom o =
    (s : Selection) × (o ≡ some s)
    × IsPrefix (to_bytes (crypto.decode s.attr)) (to_bytes (s.hash rom))

decide-Confirmed :
    (crypto : Crypto) (rom : List ℕ) (o : Option Selection)
    → decide crypto rom o ≡ accepted
    → Confirmed crypto rom o
unfolding verify
decide-Confirmed crypto rom none h = cc
decide-Confirmed crypto rom (some s) h =
    (s, refl, prefix-of-accepted (s.hash rom) (crypto.decode s.attr) h)

Confirmed-decide :
    (crypto : Crypto) (rom : List ℕ) (o : Option Selection)
    → Confirmed crypto rom o
    → decide crypto rom o ≡ accepted
unfolding verify
Confirmed-decide crypto rom o (s, e, p) =
    ap (decide crypto rom) e ∙ accepted-of-prefix (s.hash rom) (crypto.decode s.attr) p

-- A ROM module is accepted exactly if the first of the attributes `sha3`, `sha512`, `sha256` and
-- `sha1` that the policy has decodes to a prefix of the digest by this hash function.
pub check_policy-Confirmed :
    (crypto : Crypto) (policy : Policy) (rom : List ℕ)
    → (check_policy crypto policy rom ≡ accepted) ↔ Confirmed crypto rom (selected crypto policy)
check_policy-Confirmed crypto policy rom =
    let e = check_policy-decide crypto policy rom in
    (
      λ h. decide-Confirmed crypto rom (selected crypto policy) (sym e ∙ h),
      λ c. e ∙ Confirmed-decide crypto rom (selected crypto policy) c,
    )

-- A target that is longer than the digest which it starts with.
pub verify_beyond :
    (crypto : Crypto) (hash : List ℕ → List ℕ) (attr rom rest : List ℕ) (t : ℕ)
    → to_bytes (crypto.decode attr) ≡ to_bytes (hash rom) ++ (t ∷ rest)
    → verify crypto hash attr rom ≡ beyond
unfolding verify
verify_beyond crypto hash attr rom rest t h =
    compare-beyond (hash rom) (crypto.decode attr) rest t h
