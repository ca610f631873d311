-- ===== src/Tests/Node.antt =====
-- The properties of the endpoint at the fixture.
use reth_cosmos.Prelude.{
  ℕ, arith, ◌+◌, ◌≤◌, ◌≡◌, refl, Option, none, some, [], ◌∷◌, Bytes, ok, length, bytes_eq,
  if◌then◌else◌, subst, sym,
}
use reth_cosmos.Extern.Json.{codes}
use reth_cosmos.Node.Endpoint.{
  starts_with, admit, Endpoint, start, hold, receive, finish, remove_at,
}
use reth_cosmos.Node.Endpoint.Capacity.{Reach, here, next, arrives}
use reth_cosmos.Node.Endpoint.PoolLimit.{Shared, Turn, Turns, pool_bounded}
use reth_cosmos.Node.Endpoint.Release.{Drains, permits_return}
use reth_cosmos.Node.Endpoint.Spec.{Refines, Reach-Refines}
use reth_cosmos.Node.Endpoint.Sent.{IsTransaction, admit-IsTransaction}
use reth_cosmos.Primitives.Signed.{CosmosSigned}
use reth_cosmos.Tests.Codec.{codec}
use reth_cosmos.Tests.Codec.Laws.{codec_laws}
use reth_cosmos.Tests.Toy.{toy}
use reth_cosmos.Tests.Primitives.{toy_eth}
use reth_cosmos.Tests.Fixture.{fixture_raw}
use reth_cosmos.Tests.Auth.{raw_accepted}

-- A text that stands for the fixture's hexadecimal digits, and the parser that knows it.
abbrev pub text : Bytes
text = codes "0x7ef8df"

abbrev parse : Bytes → Option Bytes
parse raw = if bytes_eq raw text then some fixture_raw else none

fixture_admitted : admit codec parse 0 (some text) ≡ ok fixture_raw
unfolding admit starts_with bytes_eq
fixture_admitted = rw raw_accepted refl

admit-IsTransaction_example : (t : CosmosSigned) × IsTransaction codec toy toy_eth fixture_raw t
admit-IsTransaction_example =
    admit-IsTransaction codec toy toy_eth codec_laws parse 0 (some text) fixture_admitted

-- The endpoint after a request was admitted, and after it ended.
abbrev busy : Endpoint
busy = record { available = 7; waiting = fixture_raw ∷ [] }

busy_reached : (receive codec parse 0 (some text) start).0 ≡ busy
unfolding receive hold
busy_reached = rw fixture_admitted refl

start-busy : Reach codec parse start busy
start-busy = subst (Reach codec parse start) busy_reached (next here (arrives 0 (some text) start))

Reach-Refines_example : Refines codec parse busy
Reach-Refines_example = Reach-Refines codec parse busy start-busy

busy_ended : finish 0 busy ≡ start
unfolding finish remove_at
busy_ended = refl

busy-start : Drains 1 busy start
busy-start =
    Drains.ended 0 0 busy start (omega arith)
      (subst (λ s. Drains 0 s start) (sym busy_ended) (Drains.rest start))

permits_return_example : (start.available ≡ busy.available + 1) × Drains 0 start start
permits_return_example = permits_return codec parse 1 busy start start-busy busy-start

-- Two requests that read a pool of 3,071 transactions, and then enter it.
abbrev twice : Endpoint
twice = record { available = 6; waiting = fixture_raw ∷ fixture_raw ∷ [] }

admitted_last : admit codec parse 3071 (some text) ≡ ok fixture_raw
unfolding admit starts_with bytes_eq
admitted_last = rw raw_accepted refl

start_last : (receive codec parse 3071 (some text) start).0 ≡ busy
unfolding receive hold
start_last = rw admitted_last refl

busy_last : (receive codec parse 3071 (some text) busy).0 ≡ twice
unfolding receive hold
busy_last = rw admitted_last refl

twice_ended : finish 0 twice ≡ busy
unfolding finish remove_at
twice_ended = refl

abbrev at : Endpoint → ℕ → Shared
at s n = record { endpoint = s; pool_total = n }

start-Turns : Turns codec parse (at start 3071) (at start 3073)
start-Turns =
    let arrived = Turns.next Turns.here (Turn.arrives (some text) (at start 3071)) in
    let one = subst (λ s. Turns codec parse (at start 3071) (at s 3071)) start_last arrived in
    let again = Turns.next one (Turn.arrives (some text) (at busy 3071)) in
    let two = subst (λ s. Turns codec parse (at start 3071) (at s 3071)) busy_last again in
    let sent = Turns.next two (Turn.enters 0 (at twice 3071) (omega arith)) in
    let left = subst (λ s. Turns codec parse (at start 3071) (at s 3072)) twice_ended sent in
    let last = Turns.next left (Turn.enters 0 (at busy 3072) (omega arith)) in
    subst (λ s. Turns codec parse (at start 3071) (at s 3073)) busy_ended last

pool_bounded_example : 3073 + length start.waiting ≤ 3079
pool_bounded_example = pool_bounded codec parse 3071 (at start 3073) (omega arith) start-Turns
