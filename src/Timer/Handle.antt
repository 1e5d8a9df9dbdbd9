-- ===== src/Timer/Handle.antt =====
-- Taking timers out of the queue: when they are invalidated, and when they fire.
use smcp.Prelude.{ℕ, ◌+◌, ◌<◌, ◌≡◌, ◌≢◌, ◌⊎◌, refl, arith}
use smcp.Prelude.{Option, none}
use smcp.Prelude.{List, [], ◌∷◌, ◌++◌, All}
use smcp.Prelude.Bytes.{store}
use smcp.LinkedList.{Heap, remove, set_next, set_prev}
use smcp.LinkedList.Chain.{Chain, Fresh, Distinct, Chain-frame}
use smcp.LinkedList.Order.{IsSorted-without, Distinct-without}
use smcp.LinkedList.Remove.{remove_refines}
use smcp.Timer.{Timeval, Timers, Call, call_of, fires_no_sooner}
use smcp.Timer.{set_timer, invalidate_timer}
use smcp.Timer.Dates.{microseconds}
use smcp.Timer.Queue.{IsQueue}

-- The links of one item are set to NULL.
cleared : Heap → ℕ → Heap
cleared h t = set_prev (set_next h t 0) t 0

cleared-links : (h : Heap) (t : ℕ) → ((cleared h t).next t ≡ 0) × ((cleared h t).prev t ≡ 0)
unfolding cleared store
cleared-links h t = ground arith

cleared-others :
    (h : Heap) (t y : ℕ)
    → y ≢ t
    → ((cleared h t).next y ≡ h.next y) × ((cleared h t).prev y ≡ h.prev y)
unfolding cleared store
cleared-others h t y ne = ground arith

cleared-Chain :
    (h : Heap) (t p a : ℕ) (ts : List ℕ) → Fresh t ts → Chain h p a ts → Chain (cleared h t) p a ts
cleared-Chain h t p a ts f = Chain-frame h (cleared h t) p a ts (others ts f)
  where
    others :
        (ts : List ℕ)
        → Fresh t ts
        → All (λ y. ((cleared h t).next y ≡ h.next y) × ((cleared h t).prev y ≡ h.prev y)) ts
    others [] f = tt
    others (y ∷ ts) f = (cleared-others h t y f.0, others ts f.1)

-- `smcp_invalidate_timer` takes a timer out of the queue, wherever it stands: the others stay
-- queued in their order, the timer is linked to nothing, and the call is that of its `cancel`.
pub invalidate_timer_refines :
    (self : Timers) (t : ℕ) (before after : List ℕ)
    → IsQueue self (before ++ (t ∷ after))
    → let (self', call) = invalidate_timer self t in
      IsQueue self' (before ++ after)
      × (self'.links.next t ≡ 0)
      × (self'.links.prev t ≡ 0)
      × (self'.timer ≡ self.timer)
      × (call ≡ call_of (self.timer t).cancel (self.timer t).context)
unfolding invalidate_timer cleared
invalidate_timer_refines self t before after q = (
  record {
    chain =
        cleared-Chain removed.0 t 0 removed.1 (before ++ after) rest.1
          (remove_refines self.links self.timers t before after q.chain q.distinct);
    distinct = rest.0;
    sorted = IsSorted-without (fires_no_sooner self.timer) t before after q.sorted;
  },
  (cleared-links removed.0 t).0,
  (cleared-links removed.0 t).1,
  refl,
  refl,
)
  where
    removed : Heap × ℕ
    removed = remove self.links self.timers t

    rest : Distinct (before ++ after) × Fresh t (before ++ after)
    rest = Distinct-without t before after q.distinct

uncancelled : Timers → ℕ → Timers
uncancelled self t = record self {
  timer = set_timer self.timer t (record (self.timer t) { cancel = none });
}

-- What `smcp_handle_timers` leaves of the queue `t ∷ ts`.
abbrev pub IsHandled : Timeval → Timers → ℕ → List ℕ → Timers × Option Call → Type 0
IsHandled now self t ts (self', call) =
    ((microseconds now < microseconds (self.timer t).fire_date) × (self' ≡ self) × (call ≡ none))
    ⊎ ((microseconds (self.timer t).fire_date < microseconds now + 1000)
        × IsQueue self' ts
        × (self'.links.next t ≡ 0)
        × (self'.links.prev t ≡ 0)
        × (call ≡ call_of (self.timer t).callback (self.timer t).context))
