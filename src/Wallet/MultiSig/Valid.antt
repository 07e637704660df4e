-- ===== src/Wallet/MultiSig/Valid.antt =====
-- What a valid multi-signature transaction has, and what the operations keep.
use Prim.Native.Nat.{ℕ, ◌+◌, ◌≤◌}
use mathlib.Core.Path.{◌≡◌, refl}
use mathlib.Core.Logic.{◌↔◌, ◌≢◌, inl, inr}
use mathlib.Core.Bool.{Bool, true, false}
use mathlib.Core.List.{List, [], ◌∷◌, ◌++◌}
use mathlib.Core.Option.{none}
use native.Mathlib.Omega.{arith}
use iron_dag.Prelude.Tests.{◌==◌, Bool-cases}
use iron_dag.Prelude.Lists.{length, any, length-append}
use iron_dag.Prelude.Eq.{nat_eq}
use iron_dag.Prelude.HashSet.{contains}
use iron_dag.Wallet.MultiSig.{
  MultiSigSignature, MultiSigTransaction, valid, Result, ok, err, add_signature, find_duplicate,
  find_unknown, find_invalid, validate,
}

-- No signer signs twice, and none of them is among those seen before.
abbrev pub AreFresh : List ℕ → List MultiSigSignature → Type 0
AreFresh seen [] = Unit
AreFresh seen (s ∷ ss) = (contains s.signer seen ≡ false) × AreFresh (s.signer ∷ seen) ss

abbrev pub AreExpected : List ℕ → List MultiSigSignature → Type 0
AreExpected expected [] = Unit
AreExpected expected (s ∷ ss) = (contains s.signer expected ≡ true) × AreExpected expected ss

module _ (verify : ℕ → List ℕ → List ℕ → Bool) where
  abbrev pub AreVerified : ℕ → List MultiSigSignature → Type 0
  AreVerified hash [] = Unit
  AreVerified hash (s ∷ ss) =
      (s.signature ≢ []) × (verify hash s.signature s.public_key ≡ true) × AreVerified hash ss

find_duplicate_iff :
    (seen : List ℕ) (ss : List MultiSigSignature)
    → (find_duplicate seen ss ≡ none) ↔ AreFresh seen ss
unfolding find_duplicate
find_duplicate_iff seen [] = ground arith
find_duplicate_iff seen (s ∷ ss) = ground (arith, find_duplicate_iff (s.signer ∷ seen) ss)

find_unknown_iff :
    (expected : List ℕ) (ss : List MultiSigSignature)
    → (find_unknown expected ss ≡ none) ↔ AreExpected expected ss
unfolding find_unknown
find_unknown_iff expected [] = ground arith
find_unknown_iff expected (s ∷ ss) = ground (arith, find_unknown_iff expected ss)

module _ (verify : ℕ → List ℕ → List ℕ → Bool) where
  find_invalid_iff :
      (hash : ℕ) (ss : List MultiSigSignature)
      → (find_invalid verify hash ss ≡ none) ↔ AreVerified verify hash ss
  unfolding find_invalid
  find_invalid_iff hash [] = ground arith
  find_invalid_iff hash (s ∷ ss) = ground (arith, find_invalid_iff hash ss)

  -- A transaction is valid exactly if it has at least as many signatures as its threshold, by
  -- signers that are all different and all expected, and each signature is non-empty and verifies
  -- against the public key that came with it.
  pub validate_iff :
      (t : MultiSigTransaction)
      → (validate verify t ≡ valid) ↔ (
          (t.threshold ≤ length t.signatures)
          × AreFresh [] t.signatures
          × AreExpected t.expected_signers t.signatures
          × AreVerified verify t.tx_hash t.signatures)
  unfolding validate
  validate_iff t = ground (
    arith,
    find_duplicate_iff [] t.signatures,
    find_unknown_iff t.expected_signers t.signatures,
    find_invalid_iff t.tx_hash t.signatures,
  )

  -- One key pair signs in the name of each of the given signers.
  pub forge : List ℕ → List ℕ → List ℕ → List MultiSigSignature
  forge signature key [] = []
  forge signature key (x ∷ xs) =
      record { signer = x; signature = signature; public_key = key } ∷ forge signature key xs

  -- A list of expected signers in which no signer stands twice, nor one that was seen.
  abbrev pub AreSigners : List ℕ → List ℕ → List ℕ → Type 0
  AreSigners expected seen [] = Unit
  AreSigners expected seen (x ∷ xs) =
      (contains x expected ≡ true) × (contains x seen ≡ false) × AreSigners expected (x ∷ seen) xs

  forge_fresh :
      (signature key expected seen xs : List ℕ)
      → AreSigners expected seen xs
      → AreFresh seen (forge signature key xs)
  unfolding forge
  forge_fresh signature key expected seen [] h = tt
  forge_fresh signature key expected seen (x ∷ xs) h =
      (h.1, forge_fresh signature key expected (x ∷ seen) xs h.2)

  forge_expected :
      (signature key expected seen xs : List ℕ)
      → AreSigners expected seen xs
      → AreExpected expected (forge signature key xs)
  unfolding forge
  forge_expected signature key expected seen [] h = tt
  forge_expected signature key expected seen (x ∷ xs) h =
      (h.0, forge_expected signature key expected (x ∷ seen) xs h.2)

  forge_verified :
      (hash : ℕ) (signature key xs : List ℕ)
      → signature ≢ []
      → verify hash signature key ≡ true
      → AreVerified verify hash (forge signature key xs)
  unfolding forge
  forge_verified hash signature key [] n v = tt
  forge_verified hash signature key (x ∷ xs) n v = (n, v, forge_verified hash signature key xs n v)

  length-forge : (signature key xs : List ℕ) → length (forge signature key xs) ≡ length xs
  unfolding forge
  length-forge signature key [] = refl
  length-forge signature key (x ∷ xs) = omega (arith, length-forge signature key xs)

  -- Whoever holds one key that verifies can sign for as many different expected signers as the
  -- threshold asks for, and the transaction is valid.
  pub forge-valid :
      (t : MultiSigTransaction) (signature key signers : List ℕ)
      → signature ≢ []
      → verify t.tx_hash signature key ≡ true
      → AreSigners t.expected_signers [] signers
      → t.threshold ≤ length signers
      → validate verify (record t { signatures = forge signature key signers }) ≡ valid
  forge-valid t signature key signers n v h le =
      (validate_iff (record t { signatures = forge signature key signers })).1 (
        omega (arith, length-forge signature key signers),
        forge_fresh signature key t.expected_signers [] signers h,
        forge_expected signature key t.expected_signers [] signers h,
        forge_verified t.tx_hash signature key signers n v,
      )

-- The signatures that were collected are of different, expected signers.
abbrev pub IsCollected : MultiSigTransaction → Type 0
IsCollected t = AreFresh [] t.signatures × AreExpected t.expected_signers t.signatures

contains_skip :
    (a x : ℕ) (xs : List ℕ) → (x == a) ≡ false → contains a xs ≡ false → contains a (x ∷ xs) ≡ false
unfolding contains
contains_skip a x xs e h = ground arith

contains_nil : (a : ℕ) → contains a [] ≡ false
unfolding contains
contains_nil a = refl

AreFresh-append :
    (seen : List ℕ) (ss : List MultiSigSignature) (s : MultiSigSignature)
    → AreFresh seen ss
    → contains s.signer seen ≡ false
    → any (λ x. x.signer == s.signer) ss ≡ false
    → AreFresh seen (ss ++ s ∷ [])
AreFresh-append seen [] s h c n = (c, tt)
AreFresh-append seen (x ∷ ss) s h c n = (
  h.0,
  AreFresh-append (x.signer ∷ seen) ss s h.1 (contains_skip s.signer x.signer seen (ground arith) c)
      (ground arith),
)

AreExpected-append :
    (expected : List ℕ) (ss : List MultiSigSignature) (s : MultiSigSignature)
    → AreExpected expected ss
    → contains s.signer expected ≡ true
    → AreExpected expected (ss ++ s ∷ [])
AreExpected-append expected [] s h c = (c, tt)
AreExpected-append expected (x ∷ ss) s h c = (h.0, AreExpected-append expected ss s h.1 c)

abbrev pub AddsTo : MultiSigTransaction → Result MultiSigTransaction → Type 0
AddsTo t (err e) = Unit
AddsTo t (ok t') = IsCollected t' × (length t'.signatures ≡ length t.signatures + 1)

-- Adding a signature to a transaction whose signatures are of different, expected signers keeps
-- them so, and adds exactly one where it succeeds.
add_signature-IsCollected :
    (sig : MultiSigSignature) (t : MultiSigTransaction)
    → IsCollected t
    → AddsTo t (add_signature sig t)
unfolding add_signature
add_signature-IsCollected sig t h = elim (Bool-cases (contains sig.signer t.expected_signers)) [
  | inr unexpected ↦ rw unexpected tt
  | inl expected ↦ elim (Bool-cases (any (λ s. s.signer == sig.signer) t.signatures)) [
    | inl twice ↦ rw (expected, twice) tt
    | inr once ↦
        rw (expected, once)
          (
            (
              AreFresh-append [] t.signatures sig h.0 (contains_nil sig.signer) once,
              AreExpected-append t.expected_signers t.signatures sig h.1 expected,
            ),
            omega (arith, length-append t.signatures (sig ∷ [])),
          )
  ]
]
