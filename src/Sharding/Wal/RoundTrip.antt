-- ===== src/Sharding/Wal/RoundTrip.antt =====
-- What the replay of a write-ahead log gives back, sharding/async_messaging.rs.
use Prim.Native.Nat.{ℕ, zero, suc, ◌+◌, ◌/◌, ◌%◌, ◌^◌, ◌≤◌, ◌<◌}
use mathlib.Core.Path.{◌≡◌, refl}
use mathlib.Core.Bool.{false}
use mathlib.Core.List.{List, [], ◌∷◌, ◌++◌, append_assoc, append-nil}
use mathlib.Core.Option.{none, some}
use native.Mathlib.Omega.{arith}
use mathlib.Core.Logic.{inl, inr}
use iron_dag.Prelude.Tests.{ltb, lt→ltb, Option-cases}
use iron_dag.Prelude.Lists.{
  length, take, drop, get_elem?, length-append, take-append, drop-append, length-take,
  length-set_elem, get_elem?-within,
}
use iron_dag.Sharding.{receipt, ReceiptMessage, Mpsc, Format, IsFormat, MessageProcessor}
use iron_dag.Sharding.Wal.{
  to_le_bytes, from_le_bytes, frame, append_wal, send_receipt, replay_loop, replay_wal, send_all,
}

-- Four bytes spell a length of 32 bits.
four_bytes :
    (n : ℕ)
    → n < 2 ^ 32
    → from_le_bytes
        (n % 2 ^ 32 % 256)
        (n % 2 ^ 32 / 256 % 256)
        (n % 2 ^ 32 / 65536 % 256)
        (n % 2 ^ 32 / 16777216)
      ≡ n
unfolding from_le_bytes
four_bytes n h = omega arith

ge→ltb : (a b : ℕ) → b ≤ a → ltb a b ≡ false
ge→ltb a b h = ground arith

-- The receipts have channels.
abbrev pub AllWithin : ℕ → List ReceiptMessage → Type 0
AllWithin n [] = Unit
AllWithin n (r ∷ rs) = (r.target_shard < n) × AllWithin n rs

-- The frames of the receipts that the format writes.
unfoldable pub log_of : Format → List ReceiptMessage → List ℕ
log_of format [] = []
log_of format (r ∷ rs) = elim (format.serialize (receipt r)) [
  | none ↦ log_of format rs
  | some bytes ↦ frame bytes ++ log_of format rs
]

module _ {C : Type 0} (chan : Mpsc C) (format : Format) where
  -- One round of the loop on a frame that holds a receipt, and one where the data end within it.
  round :
      (a b c d fuel n : ℕ) (bytes rest : List ℕ) (r : ReceiptMessage) (p : MessageProcessor C)
      → from_le_bytes a b c d ≡ length bytes
      → format.deserialize bytes ≡ some (receipt r)
      → replay_loop chan format (suc fuel) (a ∷ b ∷ c ∷ d ∷ (bytes ++ rest)) n p
        ≡ replay_loop chan format fuel rest (n + 1) (send_receipt chan format r p).1
  unfolding replay_loop
  round a b c d fuel n bytes rest r p len e =
      let whole = length (bytes ++ rest) in
      let fits : ltb whole (from_le_bytes a b c d) ≡ false =
        rw len (ge→ltb whole (length bytes) (omega (arith, length-append bytes rest))) in
      let front : take (from_le_bytes a b c d) (bytes ++ rest) ≡ bytes =
        rw len (take-append bytes rest) in
      let back : drop (from_le_bytes a b c d) (bytes ++ rest) ≡ rest =
        rw len (drop-append bytes rest) in
      rw (replay_loop, fits, front, e, back) refl

  torn_round :
      (a b c d j fuel n : ℕ) (bytes : List ℕ) (p : MessageProcessor C)
      → from_le_bytes a b c d ≡ length bytes
      → j < length bytes
      → replay_loop chan format (suc fuel) (a ∷ b ∷ c ∷ d ∷ take j bytes) n p ≡ some (p, n)
  unfolding replay_loop
  torn_round a b c d j fuel n bytes p len h =
      rw
        (
          len,
          replay_loop,
          lt→ltb (length (take j bytes)) (length bytes) (omega (arith, length-take j bytes)),
        )
        refl

  replay_loop-frame :
      (bytes rest : List ℕ) (r : ReceiptMessage) (fuel n : ℕ) (p : MessageProcessor C)
      → length bytes < 2 ^ 32
      → format.deserialize bytes ≡ some (receipt r)
      → replay_loop chan format (suc fuel) (frame bytes ++ rest) n p
        ≡ replay_loop chan format fuel rest (n + 1) (send_receipt chan format r p).1
  unfolding frame to_le_bytes
  replay_loop-frame bytes rest r fuel n p short e =
      let k = length bytes in
      round (k % 2 ^ 32 % 256) (k % 2 ^ 32 / 256 % 256) (k % 2 ^ 32 / 65536 % 256)
        (k % 2 ^ 32 / 16777216) fuel n bytes rest r p (four_bytes k short) e

  replay_loop-torn :
      (bytes : List ℕ) (j fuel n : ℕ) (p : MessageProcessor C)
      → length bytes < 2 ^ 32
      → j < 4 + length bytes
      → replay_loop chan format (suc fuel) (take j (frame bytes)) n p ≡ some (p, n)
  unfolding replay_loop frame to_le_bytes
  replay_loop-torn bytes zero fuel n p short h = refl
  replay_loop-torn bytes (suc zero) fuel n p short h = refl
  replay_loop-torn bytes (suc (suc zero)) fuel n p short h = refl
  replay_loop-torn bytes (suc (suc (suc zero))) fuel n p short h = refl
  replay_loop-torn bytes (suc (suc (suc (suc j)))) fuel n p short h =
      let k = length bytes in
      torn_round (k % 2 ^ 32 % 256) (k % 2 ^ 32 / 256 % 256) (k % 2 ^ 32 / 65536 % 256)
        (k % 2 ^ 32 / 16777216) j fuel n bytes p (four_bytes k short) (omega arith)

  channels-send_receipt :
      (r : ReceiptMessage) (p : MessageProcessor C)
      → length (send_receipt chan format r p).1.message_channels ≡ length p.message_channels
  unfolding send_receipt append_wal
  channels-send_receipt r p = elim (Option-cases (get_elem? p.message_channels r.target_shard)) [
    | inl e ↦ rw (length, send_receipt, e) refl
    | inr (c, e) ↦
        ground
          (arith, length-set_elem r.target_shard (chan.try_send (receipt r) c).1 p.message_channels)
  ]

  wal-send_receipt :
      (r : ReceiptMessage) (p : MessageProcessor C) (written bytes : List ℕ)
      → p.wal ≡ some written
      → r.target_shard < length p.message_channels
      → format.serialize (receipt r) ≡ some bytes
      → (send_receipt chan format r p).1.wal ≡ some (written ++ frame bytes)
  unfolding send_receipt append_wal
  wal-send_receipt r p written bytes w h e =
      let (c, f) = get_elem?-within r.target_shard p.message_channels h in
      rw (send_receipt, f, append_wal, w, e) refl

  wal-send_all :
      (law : IsFormat format) (rs : List ReceiptMessage) (p : MessageProcessor C) (written : List ℕ)
      → p.wal ≡ some written
      → AllWithin (length p.message_channels) rs
      → (send_all chan format rs p).wal ≡ some (written ++ log_of format rs)
  unfolding send_all log_of
  wal-send_all law [] p written w h = rw (append-nil written) w
  wal-send_all law (r ∷ rs) p written w h =
      let (bytes, e, short, back) = law.reads_back (receipt r) in
      let p' = (send_receipt chan format r p).1 in
      let w' : p'.wal ≡ some (written ++ frame bytes) =
        wal-send_receipt r p written bytes w h.0 e in
      rw (log_of, e, ← append_assoc written (frame bytes) (log_of format rs))
        (wal-send_all law rs p' (written ++ frame bytes) w' (rw (channels-send_receipt r p) h.1))

  replay_loop-log :
      (law : IsFormat format) (rs : List ReceiptMessage) (tail : List ℕ) (fuel n : ℕ)
      (p : MessageProcessor C)
      → length rs < fuel
      → ((k m : ℕ) (q : MessageProcessor C)
          → replay_loop chan format (suc k) tail m q ≡ some (q, m))
      → replay_loop chan format fuel (log_of format rs ++ tail) n p
        ≡ some (send_all chan format rs p, n + length rs)
  unfolding send_all log_of
  replay_loop-log law rs tail zero n p h end = absurd (omega arith)
  replay_loop-log law [] tail (suc fuel) n p h end = ground (arith, end fuel n p)
  replay_loop-log law (r ∷ rs) tail (suc fuel) n p h end =
      let (bytes, e, short, back) = law.reads_back (receipt r) in
      let p' = (send_receipt chan format r p).1 in
      rw
        (
          log_of,
          e,
          append_assoc (frame bytes) (log_of format rs) tail,
          replay_loop-frame bytes (log_of format rs ++ tail) r fuel n p short back,
          replay_loop-log law rs tail fuel (n + 1) p' (omega arith) end,
        )
        (ground arith)

  length-log_of :
      (law : IsFormat format) (rs : List ReceiptMessage) → length rs ≤ length (log_of format rs)
  unfolding log_of frame to_le_bytes
  length-log_of law [] = omega arith
  length-log_of law (r ∷ rs) =
      let (bytes, e, short, back) = law.reads_back (receipt r) in
      rw (log_of, e) (omega (arith, length-log_of law rs, length-append bytes (log_of format rs)))

  replay_starts :
      (law : IsFormat format) (rs : List ReceiptMessage) (bytes : List ℕ) (j : ℕ)
      (q : MessageProcessor C)
      → length bytes < 2 ^ 32
      → j < 4 + length bytes
      → q.wal ≡ some (log_of format rs ++ take j (frame bytes))
      → replay_wal chan format q ≡ some (send_all chan format rs q, length rs)
  unfolding replay_wal
  replay_starts law rs bytes j q short part start =
      let tail = take j (frame bytes) in
      ground (
        arith,
        start,
        replay_loop-log law rs tail (suc (length (log_of format rs ++ tail))) 0 q
            (omega (arith, length-log_of law rs, length-append (log_of format rs) tail))
            (λ k m x. replay_loop-torn bytes j k m x short part),
      )

  -- A processor that starts with the log that another one wrote while it sent receipts, and with a
  -- part of one more frame behind it, replays exactly these receipts, in their order, and counts
  -- them: the state is the one in which it has sent each of them again. The other one began with an
  -- empty log and has a channel for each receipt, and the format writes every message in fewer than
  -- 2 ^ 32 bytes and reads it back.
  pub replay_wal-send_all :
      (law : IsFormat format) (rs : List ReceiptMessage) (bytes written : List ℕ) (j : ℕ)
      (p q : MessageProcessor C)
      → p.wal ≡ some []
      → AllWithin (length p.message_channels) rs
      → (send_all chan format rs p).wal ≡ some written
      → length bytes < 2 ^ 32
      → j < 4 + length bytes
      → q.wal ≡ some (written ++ take j (frame bytes))
      → replay_wal chan format q ≡ some (send_all chan format rs q, length rs)
  replay_wal-send_all law rs bytes written j p q empty within log short part start =
      let wrote : some (log_of format rs) ≡ some written =
        cc (wal-send_all law rs p [] empty within, log) in
      let same : log_of format rs ≡ written = cc in
      replay_starts law rs bytes j q short part (rw same start)

  -- A replay writes the receipts that it sends into the same log once more, behind whatever part of a
  -- frame ended it: the next start replays them twice. The log holds receipts that have channels.
  pub wal-replay_wal :
      (law : IsFormat format) (rs : List ReceiptMessage) (bytes : List ℕ) (j n : ℕ)
      (q q' : MessageProcessor C)
      → AllWithin (length q.message_channels) rs
      → length bytes < 2 ^ 32
      → j < 4 + length bytes
      → q.wal ≡ some (log_of format rs ++ take j (frame bytes))
      → replay_wal chan format q ≡ some (q', n)
      → q'.wal ≡ some ((log_of format rs ++ take j (frame bytes)) ++ log_of format rs)
  wal-replay_wal law rs bytes j n q q' within short part start done =
      let tail = take j (frame bytes) in
      let run = replay_starts law rs bytes j q short part start in
      let same : send_all chan format rs q ≡ q' = cc in
      rw (← same) (wal-send_all law rs q (log_of format rs ++ tail) start within)
