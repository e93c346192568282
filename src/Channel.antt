-- ===== src/Channel.antt =====
-- The channels of libs/rc2base/support/c/idris2rc2_rc2base_concurrency_util.c: a linked list of
-- nodes with a pointer to the last one, under a mutex. An operation holds the mutex but while it
-- waits, so a run is a sequence of operations, and what a wait gives back is a wake-up: the values
-- that other threads put meanwhile, and whether the time is out. A node has a name that no other
-- node has; reading or writing one that is freed is undefined behaviour. Allocation succeeds, and
-- the counts of the values are left out.
pub mod Queue
pub mod Laws
mod Examples
use idris2_rc.Prelude.{
  ℕ, suc, Bool, true, false, List, [], ◌∷◌, Option, none, some, ◌==◌, if◌then◌else◌,
}
use idris2_rc.Prelude.Run.{Run, ok, fault, out_of_fuel, ◌>>=◌, reading}

-- `idris2rc2_ChannelNode`.
pub record Node (A : Type 0) : Type 0 where
  pub value : A
  pub next : Option ℕ

-- `IDRIS2RC2_Channel`, with the memory of its nodes and the next name to give.
pub record Channel (A : Type 0) : Type 0 where
  pub head : Option ℕ
  pub tail : Option ℕ
  pub nodes : ℕ → Option (Node A)
  pub names : ℕ

pub record WakeUp (A : Type 0) : Type 0 where
  pub puts : List A
  pub timed_out : Bool

abbrev pub is_null : Option ℕ → Bool
is_null none = true
is_null (some node) = false

module _ {A : Type 0} where
  unfoldable pub write : ℕ → Option (Node A) → (ℕ → Option (Node A)) → ℕ → Option (Node A)
  write i x nodes k = if k == i then x else nodes k

  unfoldable pub channel_make : Channel A
  channel_make = record { head = none; tail = none; nodes = λ k. none; names = 0 }

  -- `c->tail->next = node`, or `c->head = node`.
  unfoldable pub link : Channel A → (node : ℕ) → Option ℕ → Run (Channel A)
  unfolding write
  link c node none = ok (record c { head = some node; tail = some node })
  link c node (some last) = do
    l ← reading (c.nodes last)
    ok (record c {
      tail = some node;
      nodes = write last (some (record l { next = some node })) c.nodes;
    })

  unfoldable pub channel_put : Channel A → A → Run (Channel A)
  channel_put c val =
      let node : Node A = record { value = val; next = none } in
      link (record c { nodes = write c.names (some node) c.nodes; names = suc c.names }) c.names
        c.tail

  -- The removal of the first node, which the three ways to get a value share.
  unfoldable pub take_node : Channel A → (node : ℕ) → Run (Channel A × Option A)
  take_node c node = do
    first ← reading (c.nodes node)
    ok (
      record c {
        head = first.next;
        tail = elim first.next [ none ↦ none | some rest ↦ c.tail ];
        nodes = write node none c.nodes;
      },
      some first.value,
    )

  unfoldable pub take_head : Channel A → Option ℕ → Run (Channel A × Option A)
  take_head c none = ok (c, none)
  take_head c (some node) = take_node c node

  unfoldable pub channel_get_non_blocking : Channel A → Run (Channel A × Option A)
  channel_get_non_blocking c = take_head c c.head

  unfoldable pub put_all : List A → Channel A → Run (Channel A)
  put_all [] c = ok c
  put_all (x ∷ l) c = do d ← channel_put c x; put_all l d

  -- The wait of `idris2rc2_channel_get`; the run ends in it where no wake-up is left.
  unfoldable pub channel_get : List (WakeUp A) → Channel A → Run (Channel A × Option A)
  channel_get [] c = if is_null c.head then out_of_fuel else take_head c c.head
  channel_get (w ∷ wakes) c =
      let woken : Run (Channel A × Option A) = (do d ← put_all w.puts c; channel_get wakes d) in
      if is_null c.head then woken else take_head c c.head

  unfoldable pub channel_get_with_timeout : List (WakeUp A) → Channel A → Run (Channel A × Option A)
  channel_get_with_timeout [] c = if is_null c.head then out_of_fuel else take_head c c.head
  channel_get_with_timeout (w ∷ wakes) c =
      let woken : Run (Channel A × Option A) = (do
        d ← put_all w.puts c
        if w.timed_out then take_head d d.head else channel_get_with_timeout wakes d) in
      if is_null c.head then woken else take_head c c.head
