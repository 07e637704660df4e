-- ===== src/Wallet/MultiSig.antt =====
-- `MultiSigTransaction` and `MultiSigManager` of account_abstraction/multisig.rs. Ed25519
-- verification is a parameter; a signature and a public key are the lists of their bytes. Of the
-- inner transaction only the hash is used here.
pub mod Valid
use Prim.Native.Nat.{ℕ}
use mathlib.Core.Bool.{Bool, true, false, not, ◌||◌}
use mathlib.Core.List.{List, [], ◌∷◌, ◌++◌, map}
use mathlib.Core.Option.{Option, none, some}
use iron_dag.Prelude.Tests.{ltb, ◌==◌, if◌then◌else◌}
use iron_dag.Prelude.Lists.{length, any, is_empty}
use iron_dag.Prelude.Words.{as_u8}
use iron_dag.Prelude.Eq.{nat_eq}
use iron_dag.Prelude.Map.{Map, get, insert}
use iron_dag.Prelude.HashSet.{contains}

pub record MultiSigSignature : Type 0 where
  pub signer : ℕ
  pub signature : List ℕ
  pub public_key : List ℕ

pub record MultiSigTransaction : Type 0 where
  pub wallet_address : ℕ
  pub tx_hash : ℕ
  pub signatures : List MultiSigSignature
  pub threshold : ℕ
  pub expected_signers : List ℕ

pub data ValidationResult : Type 0 where
  valid : ValidationResult
  insufficient_signatures : ℕ → ℕ → ValidationResult
  duplicate_signer unknown_signer invalid_signature : ℕ → ValidationResult

pub data MultiSigError : Type 0 where
  zero_threshold threshold_too_high no_signers : MultiSigError
  not_expected duplicate no_pending not_found : MultiSigError

pub data Result (A : Type 0) : Type 0 where
  ok : A → Result A
  err : MultiSigError → Result A

-- The length is cast to u8 before the comparison.
pub new : ℕ → ℕ → List ℕ → ℕ → Result MultiSigTransaction
new wallet tx_hash expected threshold =
    if threshold == 0
    then err zero_threshold
    else if ltb (as_u8 (length expected)) threshold
    then err threshold_too_high
    else if is_empty expected
    then err no_signers
    else ok (record {
      wallet_address = wallet;
      tx_hash = tx_hash;
      signatures = [];
      threshold = threshold;
      expected_signers = expected;
    })

pub add_signature : MultiSigSignature → MultiSigTransaction → Result MultiSigTransaction
add_signature sig t =
    if contains sig.signer t.expected_signers
    then if any (λ s. s.signer == sig.signer) t.signatures
      then err duplicate
      else ok (record t { signatures = t.signatures ++ sig ∷ [] })
    else err not_expected

-- The first signer that stands twice, against those seen so far.
pub find_duplicate : List ℕ → List MultiSigSignature → Option ℕ
find_duplicate seen [] = none
find_duplicate seen (s ∷ ss) =
    if contains s.signer seen then some s.signer else find_duplicate (s.signer ∷ seen) ss

pub find_unknown : List ℕ → List MultiSigSignature → Option ℕ
find_unknown expected [] = none
find_unknown expected (s ∷ ss) =
    if contains s.signer expected then find_unknown expected ss else some s.signer

-- `verify_ed25519_signature message signature public_key`
module _ (verify : ℕ → List ℕ → List ℕ → Bool) where
  pub find_invalid : ℕ → List MultiSigSignature → Option ℕ
  find_invalid hash [] = none
  find_invalid hash (s ∷ ss) =
      if is_empty s.signature || not (verify hash s.signature s.public_key)
      then some s.signer
      else find_invalid hash ss

  pub validate : MultiSigTransaction → ValidationResult
  unfolding find_duplicate find_unknown find_invalid
  validate t =
      if ltb (length t.signatures) t.threshold
      then insufficient_signatures t.threshold (as_u8 (length t.signatures))
      else elim (find_duplicate [] t.signatures) [
        | some s ↦ duplicate_signer s
        | none ↦ elim (find_unknown t.expected_signers t.signatures) [
          | some s ↦ unknown_signer s
          | none ↦ elim (find_invalid t.tx_hash t.signatures) [
            | some s ↦ invalid_signature s
            | none ↦ valid
          ]
        ]
      ]

  pub is_ready : MultiSigTransaction → Bool
  is_ready t = elim (validate t) [ valid ↦ true | _ ↦ false ]

-- `expected_signers` without those that have signed.
pub pending_signers : MultiSigTransaction → List ℕ
pending_signers t = go t.expected_signers
  where
    go : List ℕ → List ℕ
    go [] = []
    go (x ∷ xs) = if contains x (map (λ s. s.signer) t.signatures) then go xs else x ∷ go xs

abbrev pub Pending : Type 0
Pending = Map ℕ (List MultiSigTransaction)

abbrev pub or_empty : Option (List MultiSigTransaction) → List MultiSigTransaction
or_empty none = []
or_empty (some txs) = txs

pub add_pending_transaction : MultiSigTransaction → Pending → Pending
add_pending_transaction t m =
    insert t.wallet_address (or_empty (get t.wallet_address m) ++ t ∷ []) m

pub get_pending_transactions : ℕ → Pending → List MultiSigTransaction
get_pending_transactions wallet m = or_empty (get wallet m)

-- The first pending transaction of that hash takes the signature.
pub sign_first :
    ℕ → MultiSigSignature → List MultiSigTransaction → Result (List MultiSigTransaction)
unfolding add_signature
sign_first hash sig [] = err not_found
sign_first hash sig (t ∷ ts) =
    if t.tx_hash == hash
    then elim (add_signature sig t) [ ok t' ↦ ok (t' ∷ ts) | err e ↦ err e ]
    else elim (sign_first hash sig ts) [ ok ts' ↦ ok (t ∷ ts') | err e ↦ err e ]

pub add_signature_to_pending : ℕ → ℕ → MultiSigSignature → Pending → Result Pending
unfolding sign_first
add_signature_to_pending wallet hash sig m = elim (get wallet m) [
  | none ↦ err no_pending
  | some txs ↦ elim (sign_first hash sig txs) [
    | ok txs' ↦ ok (insert wallet txs' m)
    | err e ↦ err e
  ]
]

pub drop_hash : ℕ → List MultiSigTransaction → List MultiSigTransaction
drop_hash hash [] = []
drop_hash hash (t ∷ ts) = if t.tx_hash == hash then drop_hash hash ts else t ∷ drop_hash hash ts

pub remove_completed : ℕ → ℕ → Pending → Pending
unfolding drop_hash
remove_completed wallet hash m = elim (get wallet m) [
  | none ↦ m
  | some txs ↦ insert wallet (drop_hash hash txs) m
]
