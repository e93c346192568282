-- ===== src/Channel/Laws.antt =====
-- The operations of a channel are those of a queue.
use idris2_rc.Prelude.{
  suc, ◌≡◌, refl, ap, ◌∙◌, inl, inr, Bool, true, false, ◌||◌, not, List, [], ◌∷◌, ◌++◌, Option,
  none, some, arith, if◌then◌else◌, Bool-cases,
}
use idris2_rc.Prelude.Run.{Run, ok, out_of_fuel}
use idris2_rc.Channel.{
  Channel, WakeUp, write, link, channel_put, take_node, take_head, channel_get_non_blocking,
  put_all, is_null, channel_get, channel_get_with_timeout,
}
use idris2_rc.Channel.Queue.{
  Segment, IsQueue, write-same, write-other, Segment-le, Segment-write, Segment-last,
  Segment-append,
}

-- The queue and the value that an operation gives; `none` while it still waits.
abbrev pub Spec : Type 0 → Type 0
Spec A = Option (List A × Option A)

abbrev pub is_empty {ℓ} : {A : Type ℓ} → List A → Bool
is_empty [] = true
is_empty (x ∷ l) = false

module _ {A : Type 0} where
  unfoldable pub pop : List A → List A × Option A
  pop [] = ([], none)
  pop (v ∷ q) = (q, some v)

  unfoldable pub get_spec : List (WakeUp A) → List A → Spec A
  unfolding pop
  get_spec wakes (v ∷ q) = some (q, some v)
  get_spec [] [] = none
  get_spec (w ∷ wakes) [] = get_spec wakes w.puts

  unfoldable pub timeout_spec : List (WakeUp A) → List A → Spec A
  unfolding pop
  timeout_spec wakes (v ∷ q) = some (q, some v)
  timeout_spec [] [] = none
  timeout_spec (w ∷ wakes) [] = if w.timed_out then some (pop w.puts) else timeout_spec wakes w.puts

  -- A run does what the queue does: it ends in a channel that stands for the new queue, with the
  -- same value, or it waits.
  unfoldable pub Refines : Run (Channel A × Option A) → Spec A → Type 0
  Refines r none = r ≡ out_of_fuel
  Refines r (some s) = (c : Channel A) × (r ≡ ok (c, s.1)) × IsQueue c s.0

  pub channel_put-IsQueue :
      (c : Channel A) (q : List A) (x : A)
      → IsQueue c q
      → (d : Channel A) × (channel_put c x ≡ ok d) × IsQueue d (q ++ (x ∷ []))
  unfolding channel_put link IsQueue Segment write
  channel_put-IsQueue c [] x (h, t) = (
    record c {
      nodes = write c.names (some (record { value = x; next = none })) c.nodes;
      names = suc c.names;
      head = some c.names;
      tail = some c.names;
    },
    rw t refl,
    (c.names, c.names, refl, refl, (write-same c.names _ c.nodes, refl, omega arith)),
  )
  channel_put-IsQueue c (v ∷ q) x (i, last, h, t, s) =
      let (u, e) = Segment-last c.nodes c.names last i v q s in
      let bound = Segment-le c.nodes c.names last i v q s in
      let kept =
        write-other c.names last (some (record { value = x; next = none })) c.nodes
          (λ p. omega (arith, p, bound.1))
        ∙ e in
      (
        record c {
          nodes =
              write last (some (record { value = u; next = some c.names }))
                (write c.names (some (record { value = x; next = none })) c.nodes);
          names = suc c.names;
          tail = some c.names;
        },
        rw (t, kept) refl,
        (i, c.names, h, refl, Segment-append c.nodes c.names last i v q u x s e),
      )

  take_head-Refines :
      (c : Channel A) (q : List A) → IsQueue c q → Refines (take_head c c.head) (some (pop q))
  unfolding take_head take_node Refines pop IsQueue Segment
  take_head-Refines c [] (h, t) = (c, rw h refl, (h, t))
  take_head-Refines c (v ∷ []) (i, last, h, t, (e, l, b)) = (
    record c { head = none; tail = none; nodes = write i none c.nodes },
    rw (h, e) refl,
    (refl, refl),
  )
  take_head-Refines c (v ∷ w ∷ q) (i, last, h, t, (j, e, less, s)) = (
    record c { head = some j; nodes = write i none c.nodes },
    rw (h, e) refl,
    (j, last, refl, t, Segment-write c.nodes c.names last j w q i none less s),
  )

  append_nil : (p : List A) → p ++ [] ≡ p
  append_nil [] = refl
  append_nil (x ∷ p) = ap (λ t. x ∷ t) (append_nil p)

  append_assoc : (p q r : List A) → (p ++ q) ++ r ≡ p ++ (q ++ r)
  append_assoc [] q r = refl
  append_assoc (x ∷ p) q r = ap (λ t. x ∷ t) (append_assoc p q r)

  put_all-IsQueue :
      (l : List A) (c : Channel A) (q : List A)
      → IsQueue c q
      → (d : Channel A) × (put_all l c ≡ ok d) × IsQueue d (q ++ l)
  unfolding put_all
  put_all-IsQueue [] c q h = (c, refl, rw (append_nil q) h)
  put_all-IsQueue (x ∷ l) c q h =
      let (d, e, hd) = channel_put-IsQueue c q x h in
      let (f, ef, hf) = put_all-IsQueue l d (q ++ (x ∷ [])) hd in
      (f, rw e ef, rw (← append_assoc q (x ∷ []) l) hf)

  head_null : (c : Channel A) (q : List A) → IsQueue c q → is_null c.head ≡ is_empty q
  unfolding IsQueue
  head_null c [] (h, t) = rw h refl
  head_null c (v ∷ q) (i, last, h, t, s) = rw h refl

  get-Refines :
      (wakes : List (WakeUp A)) (c : Channel A) (q : List A)
      → IsQueue c q
      → Refines (channel_get wakes c) (get_spec wakes q)
  unfolding channel_get get_spec
  get-Refines [] c [] h = rw (head_null c [] h) (unfold Refines in refl)
  get-Refines [] c (v ∷ q) h = rw (head_null c (v ∷ q) h) (take_head-Refines c (v ∷ q) h)
  get-Refines (w ∷ wakes) c [] h =
      let (d, e, hd) = put_all-IsQueue w.puts c [] h in
      rw (head_null c [] h, e) (get-Refines wakes d w.puts hd)
  get-Refines (w ∷ wakes) c (v ∷ q) h = rw (head_null c (v ∷ q) h) (take_head-Refines c (v ∷ q) h)

  timeout-Refines :
      (wakes : List (WakeUp A)) (c : Channel A) (q : List A)
      → IsQueue c q
      → Refines (channel_get_with_timeout wakes c) (timeout_spec wakes q)
  unfolding channel_get_with_timeout timeout_spec
  timeout-Refines [] c [] h = rw (head_null c [] h) (unfold Refines in refl)
  timeout-Refines [] c (v ∷ q) h = rw (head_null c (v ∷ q) h) (take_head-Refines c (v ∷ q) h)
  timeout-Refines (w ∷ wakes) c [] h =
      let (d, e, hd) = put_all-IsQueue w.puts c [] h in
      elim (Bool-cases w.timed_out) [
        | inl out ↦ rw (head_null c [] h, e, out) (take_head-Refines d w.puts hd)
        | inr on ↦ rw (head_null c [] h, e, on) (timeout-Refines wakes d w.puts hd)
      ]
  timeout-Refines (w ∷ wakes) c (v ∷ q) h =
      rw (head_null c (v ∷ q) h) (take_head-Refines c (v ∷ q) h)

  -- A channel is a queue, first in and first out, and keeps being one: a put adds a value at the end,
  -- and each of the three ways to get takes the first value if there is one. Otherwise the one that
  -- does not block says so, the blocking one waits for the next wake-up, and the one with a timeout
  -- waits until the time is out and then takes what came with it, if anything. No node is read or
  -- written after it is freed.
  pub channel-Refines :
      (c : Channel A) (q : List A) (x : A) (wakes : List (WakeUp A))
      → IsQueue c q
      → ((d : Channel A) × (channel_put c x ≡ ok d) × IsQueue d (q ++ (x ∷ [])))
        × Refines (channel_get_non_blocking c) (some (pop q))
        × Refines (channel_get wakes c) (get_spec wakes q)
        × Refines (channel_get_with_timeout wakes c) (timeout_spec wakes q)
  unfolding channel_get_non_blocking
  channel-Refines c q x wakes h = (
    channel_put-IsQueue c q x h,
    take_head-Refines c q h,
    get-Refines wakes c q h,
    timeout-Refines wakes c q h,
  )

  abbrev pub sends : List (WakeUp A) → Bool
  sends [] = false
  sends (w ∷ wakes) = not (is_empty w.puts) || sends wakes

  -- A blocking get of a channel in which there is a value, or that some wake-up puts a value in,
  -- returns one.
  pub channel_get-returns :
      (c : Channel A) (q : List A) (wakes : List (WakeUp A))
      → IsQueue c q
      → (not (is_empty q) || sends wakes) ≡ true
      → (d : Channel A) × (v : A) × (rest : List A) × (channel_get wakes c ≡ ok (d, some v))
        × IsQueue d rest
  unfolding get_spec Refines
  channel_get-returns c q wakes h some_value = by_spec wakes q some_value (get-Refines wakes c q h)
    where
      by_spec :
          (wakes : List (WakeUp A)) (q : List A) {r : Run (Channel A × Option A)}
          → (not (is_empty q) || sends wakes) ≡ true
          → Refines r (get_spec wakes q)
          → (d : Channel A) × (v : A) × (rest : List A) × (r ≡ ok (d, some v)) × IsQueue d rest
      by_spec wakes (v ∷ q) e (d, same, hq) = (d, v, q, same, hq)
      by_spec [] [] e ref = absurd (cc)
      by_spec (w ∷ wakes) [] e ref = by_spec wakes w.puts e ref
