-- ===== src/Sharding/Manager/Worth.antt =====
-- What all shards are worth together: their balances, and the values on the way between them, in
-- the channels, among the receipts that wait and in the retry queue.
pub mod Receipts
pub mod Receive
pub mod Funded
pub mod Steps
pub mod Runs
use Prim.Native.Nat.{ℕ, ◌+◌, ◌-◌, ◌≤◌, min}
use mathlib.Core.Path.{◌≡◌, refl}
use mathlib.Core.Logic.{inl, inr}
use mathlib.Core.Bool.{Bool, true, false}
use mathlib.Core.List.{List, [], ◌∷◌, ◌++◌}
use mathlib.Core.Option.{Option, none, some}
use native.Mathlib.Omega.{arith}
use iron_dag.Prelude.Tests.{ltb, if◌then◌else◌, Option-cases, Bool-cases}
use iron_dag.Prelude.Lists.{
  length, get_elem?, set_elem, sum_by, sum_by-append, sum_by-set_elem, elem-le-sum_by,
}
use iron_dag.Prelude.Words.{u128_max, sat_add_u128}
use iron_dag.Prelude.Eq.{nat_eq}
use iron_dag.Prelude.Map.{Map, get, insert}
use iron_dag.Ledger.Types.{AccountState, get_balance, get_nonce}
use iron_dag.Ledger.Supply.{total, total-insert, balance-le-total}
use iron_dag.Sharding.{
  CrossShardMessage, receipt, receipt_ack, state_sync, ReceiptMessage, Mpsc, IsFifo, Format,
  MessageProcessor, SendError,
}
use iron_dag.Sharding.Wal.{append_wal, send_receipt}
use iron_dag.Sharding.Shard.{Shard, set_balance}
use iron_dag.Sharding.Manager.{
  total_cost, check_source, debit_source, height_of, send_credit, ShardManager,
  CrossShardTransaction, CrossShardRetryEntry, PendingReceiptEntry, put_shard, commit,
  send_or_queue,
}

unfoldable pub balances : Shard → ℕ
balances s = total s.accounts

abbrev pub carried : CrossShardMessage → ℕ
carried (receipt r) = r.value
carried _ = 0

abbrev pub retried : CrossShardRetryEntry → ℕ
retried e = e.message.value

abbrev pub waiting : PendingReceiptEntry → ℕ
waiting e = e.value

pub total-set_balance :
    (a b : ℕ) (m : Map ℕ AccountState) → total (set_balance a b m) + get_balance a m ≡ total m + b
unfolding set_balance
total-set_balance a b m = total-insert a (record { balance = b; nonce = get_nonce a m }) m

module _ {C : Type 0} (chan : Mpsc C) where
  unfoldable pub in_channel : C → ℕ
  in_channel c = sum_by carried (chan.queued c)

  unfoldable pub worth : ShardManager C → ℕ
  worth m =
      sum_by balances m.shards
      + sum_by in_channel m.message_processor.message_channels
      + sum_by waiting m.pending_receipts
      + sum_by retried m.retry_queue

  abbrev pub sent_value : Option SendError → ℕ → ℕ
  sent_value none v = v
  sent_value (some _) v = 0

  in_channel-try_send :
      (law : IsFifo chan) (r : ReceiptMessage) (c : C)
      → in_channel (chan.try_send (receipt r) c).1
        ≡ in_channel c + sent_value (chan.try_send (receipt r) c).0 r.value
  unfolding in_channel sum_by
  in_channel-try_send law r c = elim (Option-cases (chan.try_send (receipt r) c).0) [
    | inl e ↦
        rw
          (
            e,
            in_channel,
            law.taken (receipt r) c e,
            sum_by-append carried (chan.queued c) (receipt r ∷ []),
          )
          (omega arith)
    | inr (x, e) ↦ rw (e, in_channel, law.refused (receipt r) c x e) (omega arith)
  ]

  -- A send puts the value of the message into the channels, or nothing.
  pub channels-send_receipt :
      (format : Format) (law : IsFifo chan) (r : ReceiptMessage) (p : MessageProcessor C)
      → sum_by in_channel (send_receipt chan format r p).1.message_channels
        ≡ sum_by in_channel p.message_channels + sent_value (send_receipt chan format r p).0 r.value
  unfolding send_receipt append_wal
  channels-send_receipt format law r p =
      elim (Option-cases (get_elem? p.message_channels r.target_shard)) [
        | inl e ↦ ground arith
        | inr (c, e) ↦ ground (
          arith,
          in_channel-try_send law r c,
          sum_by-set_elem in_channel r.target_shard (chan.try_send (receipt r) c).1 c
              p.message_channels e,
        )
      ]

  commit-worth : (hash : ℕ) (m : ShardManager C) → worth (commit hash m) ≡ worth m
  unfolding commit worth
  commit-worth hash m = ground arith

  send_or_queue-worth :
      (format : Format) (law : IsFifo chan) (r : ReceiptMessage) (now : ℕ) (m : ShardManager C)
      → worth (send_or_queue chan format r now m) ≡ worth m + r.value
  unfolding send_or_queue worth sum_by
  send_or_queue-worth format law r now m =
      let entry : CrossShardRetryEntry = record {
        message = r;
        retry_count = 0;
        next_retry_at = now + 1;
      } in
      ground (
        arith,
        channels-send_receipt format law r m.message_processor,
        commit-worth r.tx_hash
            (record m { message_processor = (send_receipt chan format r m.message_processor).1 }),
        sum_by-append retried m.retry_queue (entry ∷ []),
      )

  pub worth-put_shard :
      (i : ℕ) (s old : Shard) (m : ShardManager C)
      → get_elem? m.shards i ≡ some old
      → worth (put_shard i s m) + balances old ≡ worth m + balances s
  unfolding worth put_shard
  worth-put_shard i s old m e = omega (arith, sum_by-set_elem balances i s old m.shards e)

  -- What a debit takes from the balance of the sender.
  unfoldable pub taken : CrossShardTransaction → ShardManager C → ℕ
  taken ct m = elim (get_elem? m.shards ct.source_shard) [
    | none ↦ 0
    | some s ↦ min (total_cost ct) (get_balance ct.tx.from s.accounts)
  ]

  pub taken-le : (ct : CrossShardTransaction) (m : ShardManager C) → taken ct m ≤ total_cost ct
  unfolding taken
  taken-le ct m = ground arith

  pub debit_source-worth :
      (ct : CrossShardTransaction) (m : ShardManager C)
      → worth (debit_source ct m) + taken ct m ≡ worth m
  unfolding debit_source taken balances
  debit_source-worth ct m = elim (Option-cases (get_elem? m.shards ct.source_shard)) [
    | inl e ↦ ground (arith, e)
    | inr (s, e) ↦
        let a = ct.tx.from in
        let b = get_balance a s.accounts - total_cost ct in
        let s' = record s { accounts = set_balance a b s.accounts } in
        ground (
          arith,
          e,
          worth-put_shard ct.source_shard s' s m e,
          total-set_balance a b s.accounts,
          balance-le-total a s.accounts,
        )
  ]

  pub send_credit-worth :
      (format : Format) (hashes : ℕ × ℕ × ℕ → ℕ) (law : IsFifo chan) (hash now : ℕ)
      (ct : CrossShardTransaction) (m : ShardManager C)
      → worth (send_credit chan format hashes hash ct now m) ≡ worth m + ct.tx.value
  unfolding send_credit
  send_credit-worth format hashes law hash now ct m =
      send_or_queue-worth format law
        (record {
          tx_hash = hash;
          receipt_id = hashes (hash, ct.source_shard, ct.target_shard);
          source_shard = ct.source_shard;
          target_shard = ct.target_shard;
          value = ct.tx.value;
          to = ct.tx.to;
          source_block_height = height_of ct.source_shard m;
        })
        now m

  pub total-le-worth :
      (i : ℕ) (s : Shard) (m : ShardManager C)
      → get_elem? m.shards i ≡ some s
      → total s.accounts ≤ worth m
  unfolding worth balances
  total-le-worth i s m e = omega (arith, elem-le-sum_by balances i s m.shards e)
