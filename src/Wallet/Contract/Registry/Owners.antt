-- ===== src/Wallet/Contract/Registry/Owners.antt =====
-- The table of owners agrees with the table of wallets.
use Prim.Native.Nat.{ℕ}
use mathlib.Core.Path.{◌≡◌, refl, sym, subst, ap, ◌∙◌}
use mathlib.Core.Logic.{inl, inr}
use mathlib.Core.Bool.{true, false}
use mathlib.Core.List.{List, [], ◌∷◌, ◌++◌, append-nil}
use mathlib.Core.Option.{none, some}
use native.Mathlib.Omega.{arith}
use iron_dag.Prelude.Tests.{◌==◌, if◌then◌else◌, Option-cases, Bool-cases}
use iron_dag.Prelude.Eq.{nat_eq}
use iron_dag.Prelude.Map.{Map, get, insert, get-insert, contains_key}
use iron_dag.Wallet.Contract.{SmartContractWallet, increment_nonce, record_wallet_spending}
use iron_dag.Wallet.Contract.Registry.{
  WalletRegistry, new_registry, or_empty, register_wallet, look_up, get_owner_wallets,
  update_wallet_nonce, update_wallet,
}

-- The wallets of an owner, read from the table of wallets.
unfoldable pub owned : ℕ → Map ℕ SmartContractWallet → List SmartContractWallet
owned owner [] = []
owned owner ((a, w) ∷ m) = let rest = owned owner m in if w.owner == owner then w ∷ rest else rest

-- Their addresses.
unfoldable pub addresses : ℕ → Map ℕ SmartContractWallet → List ℕ
addresses owner [] = []
addresses owner ((a, w) ∷ m) =
    let rest = addresses owner m in if w.owner == owner then a ∷ rest else rest

insert-fresh :
    (a : ℕ) (w : SmartContractWallet) (m : Map ℕ SmartContractWallet)
    → get a m ≡ none
    → insert a w m ≡ m ++ ((a, w) ∷ [])
unfolding get insert
insert-fresh a w [] h = refl
insert-fresh a w ((b, x) ∷ m) h = elim (Bool-cases (b == a)) [
  | inl same ↦ absurd (ground arith)
  | inr other ↦
      rw (insert, other)
        (ap (λ (n : Map ℕ SmartContractWallet). (b, x) ∷ n) (insert-fresh a w m (rw other at h)))
]

addresses-append :
    (owner a : ℕ) (w : SmartContractWallet) (m : Map ℕ SmartContractWallet)
    → addresses owner (m ++ ((a, w) ∷ []))
      ≡ addresses owner m ++ (if w.owner == owner then a ∷ [] else [])
unfolding addresses
addresses-append owner a w [] = ground arith
addresses-append owner a w ((b, x) ∷ m) = ground (arith, addresses-append owner a w m)

-- An update of a wallet that keeps its owner.
addresses-update :
    (owner a : ℕ) (w w' : SmartContractWallet) (m : Map ℕ SmartContractWallet)
    → get a m ≡ some w
    → w'.owner ≡ w.owner
    → addresses owner (insert a w' m) ≡ addresses owner m
unfolding addresses get insert
addresses-update owner a w w' [] e h = ground arith
addresses-update owner a w w' ((b, x) ∷ m) e h = elim (Bool-cases (b == a)) [
  | inl same ↦ ground arith
  | inr other ↦ ground (arith, addresses-update owner a w w' m)
]

-- No address stands twice.
abbrev pub AreUnique : Map ℕ SmartContractWallet → Type 0
AreUnique [] = Unit
AreUnique ((a, w) ∷ m) = (get a m ≡ none) × AreUnique m

AreUnique-insert :
    (a : ℕ) (w : SmartContractWallet) (m : Map ℕ SmartContractWallet)
    → AreUnique m
    → AreUnique (insert a w m)
unfolding get insert
AreUnique-insert a w [] u = (refl, tt)
AreUnique-insert a w ((b, x) ∷ m) u = elim (Bool-cases (b == a)) [
  | inl same ↦ rw (insert, same) (ground (arith, u.0), u.1)
  | inr other ↦
      rw (insert, other) (ground (arith, u.0, get-insert a b w m), AreUnique-insert a w m u.1)
]

look_up-skip :
    (owner a : ℕ) (w : SmartContractWallet) (m n : Map ℕ SmartContractWallet)
    → get a m ≡ none
    → look_up (addresses owner m) ((a, w) ∷ n) ≡ look_up (addresses owner m) n
unfolding addresses look_up get
look_up-skip owner a w [] n h = refl
look_up-skip owner a w ((b, x) ∷ m) n h = elim (Bool-cases (b == a)) [
  | inl same ↦ absurd (ground arith)
  | inr other ↦
      let apart : (a == b) ≡ false = ground arith in
      let rest = look_up-skip owner a w m n (rw other at h) in ground (arith, apart, rest)
]

look_up-addresses :
    (owner : ℕ) (m : Map ℕ SmartContractWallet)
    → AreUnique m
    → look_up (addresses owner m) m ≡ owned owner m
unfolding addresses look_up owned get
look_up-addresses owner [] u = refl
look_up-addresses owner ((a, w) ∷ m) u =
    let same : (a == a) ≡ true = ground arith in
    ground (arith, same, look_up-skip owner a w m m u.0, look_up-addresses owner m u.1)

-- The addresses of each owner are those of its wallets, in the order of their registration.
pub record IsConsistent (r : WalletRegistry) : Type 0 where
  pub agrees : (owner : ℕ) → or_empty (get owner r.owner_wallets) ≡ addresses owner r.wallets
  pub unique : AreUnique r.wallets

register-IsConsistent :
    (w : SmartContractWallet) (r : WalletRegistry)
    → IsConsistent r
    → IsConsistent (register_wallet w r).1
unfolding register_wallet
register-IsConsistent w r v = elim (Option-cases (get w.address r.wallets)) [
  | inr (x, e) ↦
      let known : contains_key w.address r.wallets ≡ true = ground arith in
      let same : (register_wallet w r).1 ≡ r = rw (register_wallet, known) refl in
      subst IsConsistent (sym same) v
  | inl e ↦
      let entry = or_empty (get w.owner r.owner_wallets) ++ (w.address ∷ []) in
      let unknown : contains_key w.address r.wallets ≡ false = ground arith in
      rw (register_wallet, unknown)
        (record {
          agrees = λ owner. ground (
            arith,
            v.agrees owner,
            get-insert w.owner owner entry r.owner_wallets,
            insert-fresh w.address w r.wallets e,
            addresses-append owner w.address w r.wallets,
            append-nil (addresses owner r.wallets),
          );
          unique = AreUnique-insert w.address w r.wallets v.unique;
        })
]

-- A wallet that changes and keeps its owner.
replaced-IsConsistent :
    (a : ℕ) (w w' : SmartContractWallet) (r : WalletRegistry)
    → get a r.wallets ≡ some w
    → w'.owner ≡ w.owner
    → IsConsistent r
    → IsConsistent (record r { wallets = insert a w' r.wallets })
replaced-IsConsistent a w w' r e h v = record {
  agrees = λ owner. v.agrees owner ∙ sym (addresses-update owner a w w' r.wallets e h);
  unique = AreUnique-insert a w' r.wallets v.unique;
}

nonce-IsConsistent :
    (a : ℕ) (r : WalletRegistry) → IsConsistent r → IsConsistent (update_wallet_nonce a r).1
unfolding update_wallet_nonce increment_nonce
nonce-IsConsistent a r v = elim (Option-cases (get a r.wallets)) [
  | inl e ↦ rw (update_wallet_nonce, e) v
  | inr (w, e) ↦
      rw (update_wallet_nonce, e) (replaced-IsConsistent a w (increment_nonce w) r e refl v)
]

record_wallet_spending-owner :
    (value : ℕ) (w : SmartContractWallet) → (record_wallet_spending value w).owner ≡ w.owner
unfolding record_wallet_spending
record_wallet_spending-owner value w = ground arith

update-IsConsistent :
    (a value : ℕ) (r : WalletRegistry) → IsConsistent r → IsConsistent (update_wallet a value r)
unfolding update_wallet
update-IsConsistent a value r v =
    let moved = (update_wallet_nonce a r).1 in
    let v' = nonce-IsConsistent a r v in
    elim (Option-cases (get a moved.wallets)) [
      | inl e ↦ rw (update_wallet, e) v'
      | inr (w, e) ↦
          rw (update_wallet, e)
            (replaced-IsConsistent a w (record_wallet_spending value w) moved e
              (record_wallet_spending-owner value w) v')
    ]

-- A registration, or a processed transaction of an address with its value.
pub data Call : Type 0 where
  register : SmartContractWallet → Call
  transact : ℕ → ℕ → Call

unfoldable pub serve : List Call → WalletRegistry → WalletRegistry
serve [] r = r
serve (register w ∷ cs) r = serve cs (register_wallet w r).1
serve (transact a value ∷ cs) r = serve cs (update_wallet a value r)

serve-IsConsistent :
    (cs : List Call) (r : WalletRegistry) → IsConsistent r → IsConsistent (serve cs r)
unfolding serve
serve-IsConsistent [] r v = v
serve-IsConsistent (register w ∷ cs) r v =
    serve-IsConsistent cs (register_wallet w r).1 (register-IsConsistent w r v)
serve-IsConsistent (transact a value ∷ cs) r v =
    serve-IsConsistent cs (update_wallet a value r) (update-IsConsistent a value r v)

-- Whatever a new registry has served, the wallets that it finds for an owner by its table of owners
-- are those of the table of wallets with that owner, in their present state and in the order of their
-- registration.
pub get_owner_wallets-owned :
    (cs : List Call) (owner : ℕ)
    → get_owner_wallets owner (serve cs new_registry) ≡ owned owner (serve cs new_registry).wallets
unfolding get_owner_wallets new_registry addresses get
get_owner_wallets-owned cs owner =
    let start : IsConsistent new_registry = record { agrees = λ o. refl; unique = tt } in
    let v = serve-IsConsistent cs new_registry start in
    rw (v.agrees owner) (look_up-addresses owner (serve cs new_registry).wallets v.unique)
