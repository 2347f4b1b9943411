-- ===== src/RomVerify/Verify.antt =====
-- `Session::verify` and the constructor of `Session` of src/proxy/rom_verify/main.cc.
pub mod Prefix
use genode_world.Prelude.{
  ℕ, ◌/◌, ◌==◌, if◌then◌else◌, Bool, true, false, List, [], ◌∷◌, Option, none, some, length, u8,
}

-- The end of a verification: the session is accepted, `Service_denied` is thrown, or the digest is
-- read beyond its end.
pub data Verdict : Type 0 where
  accepted service_denied beyond : Verdict

-- The loop of `verify` over the bytes of the target.
unfoldable pub compare_digest : List ℕ → List ℕ → Verdict
compare_digest digest [] = accepted
compare_digest [] (t ∷ target) = beyond
compare_digest (d ∷ digest) (t ∷ target) =
    if u8 d == u8 t then compare_digest digest target else service_denied

-- The libraries: the hash functions of Crypto++, of which `sha3` takes the size of the digest, and
-- its decoder of hexadecimal texts.
pub record Crypto : Type 0 where
  pub sha3 : ℕ → List ℕ → List ℕ
  pub sha512 : List ℕ → List ℕ
  pub sha256 : List ℕ → List ℕ
  pub sha1 : List ℕ → List ℕ
  pub decode : List ℕ → List ℕ

-- `verify`: the ROM content against the attribute's value.
unfoldable pub verify : Crypto → (List ℕ → List ℕ) → List ℕ → List ℕ → Verdict
verify crypto hash attr rom = compare_digest (hash rom) (crypto.decode attr)

-- The attributes of a policy node that are read.
pub record Policy : Type 0 where
  pub sha3_attr : Option (List ℕ)
  pub sha512_attr : Option (List ℕ)
  pub sha256_attr : Option (List ℕ)
  pub sha1_attr : Option (List ℕ)

-- `try { … } catch (Nonexistent_attribute) { }`, with what follows.
abbrev pub try_attribute : (List ℕ → Verdict) → Option (List ℕ) → Verdict → Verdict
try_attribute check none rest = rest
try_attribute check (some attr) rest = check attr

-- The body of the constructor.
unfoldable pub check_policy : Crypto → Policy → List ℕ → Verdict
check_policy crypto policy rom =
    try_attribute (λ attr. verify crypto (crypto.sha3 (length attr / 2)) attr rom) policy.sha3_attr
      (try_attribute (λ attr. verify crypto crypto.sha512 attr rom) policy.sha512_attr
        (try_attribute (λ attr. verify crypto crypto.sha256 attr rom) policy.sha256_attr
          (try_attribute (λ attr. verify crypto crypto.sha1 attr rom) policy.sha1_attr
            service_denied)))
