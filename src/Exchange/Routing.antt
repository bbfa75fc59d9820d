-- ===== src/Exchange/Routing.antt =====
-- Commands from the gateway's queue to the queues of their symbols, and reports from the outbound queue
-- to the transport.
use flux_trade.Prelude.{
  ℕ, zero, suc, ◌+◌, ◌<◌, ◌≤◌, true, false, none, some, List, [], ◌∷◌, ◌++◌, ◌≡◌, ◌≢◌, ap, sym, ◌∙◌,
  subst, arith, length, length-append, append_assoc, append-nil, ◌==◌, ==_iff, if◌then◌else◌,
  Bool-cases, inl, inr, Option-cases,
}
use flux_trade.Common.Table.{put, put_same, put_other}
use flux_trade.Common.Ring.{Ring, push, pop}
use flux_trade.Common.Queue.{IsRing, contents, push_joins, pop-some, pop-none}
use flux_trade.Gateway.Commands.{OrderCommand}
use flux_trade.Exchange.Dispatcher.{Dispatcher, slot_of_symbol, dispatch}
use flux_trade.Exchange.Venue.{drain_round, drain}

-- The commands for a slot, in order.
abbrev pub for_slot : ℕ → List OrderCommand → List OrderCommand
for_slot s [] = []
for_slot s (c ∷ cs) =
    let rest = for_slot s cs in if slot_of_symbol c.symbol_id == s then c ∷ rest else rest

dispatch_here :
    (c : OrderCommand) (queues : Dispatcher) (s : ℕ)
    → slot_of_symbol c.symbol_id ≡ s
    → (dispatch c queues).1 s ≡ (push c (queues s)).1
unfolding dispatch
dispatch_here c queues s h =
    ap (put (slot_of_symbol c.symbol_id) (push c (queues (slot_of_symbol c.symbol_id))).1 queues)
      (sym h)
    ∙ put_same (slot_of_symbol c.symbol_id) _ queues
    ∙ ap (λ k. (push c (queues k)).1) h

dispatch_elsewhere :
    (c : OrderCommand) (queues : Dispatcher) (s : ℕ)
    → s ≢ slot_of_symbol c.symbol_id
    → (dispatch c queues).1 s ≡ queues s
unfolding dispatch
dispatch_elsewhere c queues s h = put_other (slot_of_symbol c.symbol_id) _ queues s h

-- A slot's queue has room for these commands.
abbrev pub HasRoom : List OrderCommand → Ring OrderCommand → Type 0
HasRoom cs q = IsRing q × (length (contents q) + length cs ≤ q.capacity)

for_slot_here :
    (s : ℕ) (c : OrderCommand) (cs : List OrderCommand)
    → (slot_of_symbol c.symbol_id == s) ≡ true
    → for_slot s (c ∷ cs) ≡ c ∷ for_slot s cs
for_slot_here s c cs h = ground arith

for_slot_elsewhere :
    (s : ℕ) (c : OrderCommand) (cs : List OrderCommand)
    → (slot_of_symbol c.symbol_id == s) ≡ false
    → for_slot s (c ∷ cs) ≡ for_slot s cs
for_slot_elsewhere s c cs h = ground arith

-- The queue q has taken the first of the commands that the queue p has yet to take.
abbrev Joined :
    List OrderCommand → List OrderCommand → Ring OrderCommand → Ring OrderCommand → Type 0
Joined due left p q = HasRoom left q × (contents q ++ left ≡ contents p ++ due)

-- What dispatching a command leaves to a slot's queue.
dispatch_joins :
    (c : OrderCommand) (cs : List OrderCommand) (queues : Dispatcher) (s : ℕ)
    → HasRoom (for_slot s (c ∷ cs)) (queues s)
    → Joined (for_slot s (c ∷ cs)) (for_slot s cs) (queues s) ((dispatch c queues).1 s)
dispatch_joins c cs queues s (v, room) = elim (Bool-cases (slot_of_symbol c.symbol_id == s)) [
  | inl here ↦
      let same = (==_iff (slot_of_symbol c.symbol_id) s).0 here in
      let due = for_slot_here s c cs here in
      let (v', shown, capacity) = push_joins c (queues s) v (omega (arith, room, ap length due)) in
      subst (Joined (for_slot s (c ∷ cs)) (for_slot s cs) (queues s))
        (sym (dispatch_here c queues s same))
        (
          (
            v',
            omega (
              arith,
              room,
              ap length due,
              ap length shown,
              capacity,
              length-append (contents (queues s)) (c ∷ []),
            ),
          ),
          ap (λ xs. xs ++ for_slot s cs) shown
              ∙ append_assoc (contents (queues s)) (c ∷ []) (for_slot s cs)
              ∙ ap (λ xs. contents (queues s) ++ xs) (sym due),
        )
  | inr elsewhere ↦
      let due = for_slot_elsewhere s c cs elsewhere in
      subst (Joined (for_slot s (c ∷ cs)) (for_slot s cs) (queues s))
        (sym (dispatch_elsewhere c queues s (λ p. ground arith)))
        ((v, omega (arith, room, ap length due)), ap (λ xs. contents (queues s) ++ xs) (sym due))
]

drain_ends :
    (fuel : ℕ) (inbound : Ring OrderCommand) (queues : Dispatcher)
    → pop inbound ≡ none
    → drain (suc fuel) (inbound, queues) ≡ some (inbound, queues)
unfolding drain drain_round
drain_ends fuel inbound queues h = ground arith

drain_next :
    (fuel : ℕ) (inbound : Ring OrderCommand) (queues : Dispatcher) (c : OrderCommand)
    (rest : Ring OrderCommand)
    → pop inbound ≡ some (c, rest)
    → drain (suc fuel) (inbound, queues) ≡ drain fuel (rest, (dispatch c queues).1)
unfolding drain drain_round
drain_next fuel inbound queues c rest h = ground arith

-- With more fuel than the inbound queue, a valid ring, holds commands, draining it ends with the
-- queue empty, and each slot's queue that is a valid ring with room for them has taken the commands
-- for its slot, in their order, behind those that it held.
pub drain_routes :
    (fuel s : ℕ) (inbound : Ring OrderCommand) (queues : Dispatcher)
    → length (contents inbound) < fuel
    → IsRing inbound
    → HasRoom (for_slot s (contents inbound)) (queues s)
    → (inbound' : Ring OrderCommand) × (queues' : Dispatcher) × (drain fuel (inbound, queues)
        ≡ some (inbound', queues'))
      × (contents inbound' ≡ [])
      × (contents (queues' s) ≡ contents (queues s) ++ for_slot s (contents inbound))
drain_routes zero s inbound queues h v room = absurd (omega (arith, h))
drain_routes (suc fuel) s inbound queues h v room = elim (Option-cases (pop inbound)) [
  | inl nothing ↦
      let empty = pop-none inbound v nothing in
      (
        inbound,
        queues,
        drain_ends fuel inbound queues nothing,
        empty,
        sym (append-nil (contents (queues s)))
            ∙ ap (λ xs. contents (queues s) ++ for_slot s xs) (sym empty),
      )
  | inr ((c, rest), found) ↦
      let (v', shown) = pop-some inbound c rest v found in
      let (room', joined) =
        dispatch_joins c (contents rest) queues s
          (subst (λ xs. HasRoom (for_slot s xs) (queues s)) shown room) in
      let (inbound', queues', runs, empty, taken) =
        drain_routes fuel s rest (dispatch c queues).1 (omega (arith, h, ap length shown)) v'
          room' in
      (
        inbound',
        queues',
        drain_next fuel inbound queues c rest found ∙ runs,
        empty,
        taken ∙ joined ∙ ap (λ xs. contents (queues s) ++ for_slot s xs) (sym shown),
      )
]
