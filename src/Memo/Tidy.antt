-- ===== src/Memo/Tidy.antt =====
-- The invariant of the memos, the calls and the cleanup list, and how one step of a call keeps it.
use idris2_rc.Prelude.{
  ℕ, ◌+◌, ◌≤◌, ◌<◌, ◌≡◌, ◌⊎◌, refl, Bool, true, false, List, [], ◌∷◌, Option, none, some, arith,
  ◌==◌, if◌then◌else◌, ==_iff,
}
use idris2_rc.Memo.{
  Phase, entering, owning, computing, storing, loading, linking, swapping, publishing, waiting,
  returned, missing, cycle, Memo, Memos,
}

abbrev pub count : ℕ → List ℕ → ℕ
count m [] = 0
count m (k ∷ ks) = (if k == m then 1 else 0) + count m ks

-- The call has the claim of its memo and has not given it up by setting `done`.
abbrev pub owns : Phase → Bool
owns entering = false
owns waiting = false
owns (returned r) = false
owns missing = false
owns cycle = false
owns p = true

-- What holds of a call, given its memo and how often the cleanup list has that.
abbrev pub Good : Memo → ℕ → Phase → Type 0
Good c n entering = Unit {0}
Good c n waiting = Unit {0}
Good c n cycle = Unit {0}
Good c n missing = true ≡ false
Good c n owning = (c.claimed ≡ true) × (c.done ≡ false) × (n ≡ 0)
Good c n computing = (c.claimed ≡ true) × (c.done ≡ false) × (n ≡ 0)
Good c n (storing r) = (c.claimed ≡ true) × (c.done ≡ false) × (n ≡ 0)
Good c n (loading r) = (c.claimed ≡ true) × (c.done ≡ false) × (n ≡ 0) × (c.value ≡ some r)
Good c n (linking r old) = (c.claimed ≡ true) × (c.done ≡ false) × (n ≡ 0) × (c.value ≡ some r)
Good c n (swapping r old) =
    (c.claimed ≡ true) × (c.done ≡ false) × (n ≡ 0) × (c.value ≡ some r) × (c.cleanup_next ≡ old)
Good c n (publishing r) = (c.claimed ≡ true) × (c.done ≡ false) × (n ≡ 1) × (c.value ≡ some r)
Good c n (returned r) = (c.done ≡ true) × (c.value ≡ some r)

-- What holds of a memo, given how often the cleanup list has it.
pub record IsFair (c : Memo) (n : ℕ) : Type 0 where
  pub most : n ≤ 1
  pub unclaimed : c.claimed ≡ false → (c.done ≡ false) × (n ≡ 0)
  pub finished : c.done ≡ true → (n ≡ 1) × ((v : ℕ) × (c.value ≡ some v))

-- From `head`, the links lead through the memos `l` and no others.
abbrev pub Chain : (ℕ → Memo) → Option ℕ → List ℕ → Type 0
Chain memos head [] = head ≡ none
Chain memos head (m ∷ l) = (head ≡ some m) × Chain memos (memos m).cleanup_next l

module _ (memo_of : ℕ → ℕ) where
  pub record IsTidy (s : Memos) (l : List ℕ) : Type 0 where
    pub chain : Chain s.memos s.head l
    pub fair : (m : ℕ) → IsFair (s.memos m) (count m l)
    pub good : (i : ℕ) → Good (s.memos (memo_of i)) (count (memo_of i) l) (s.calls i)
    pub single :
        (i j : ℕ)
        → owns (s.calls i) ≡ true
        → owns (s.calls j) ≡ true
        → memo_of i ≡ memo_of j
        → i ≡ j
    pub linked :
        (m : ℕ)
        → count m l ≡ 1
        → ((s.memos m).done ≡ true) ⊎ ((j : ℕ) × (memo_of j ≡ m) × (owns (s.calls j) ≡ true))

-- A call whose memo is not done, and which does not own it, has nothing to lose.
pub idle-Good :
    (c c' : Memo) (n n' : ℕ) (p : Phase)
    → owns p ≡ false
    → c.done ≡ false
    → Good c n p
    → Good c' n' p
idle-Good c c' n n' entering o d g = tt
idle-Good c c' n n' waiting o d g = tt
idle-Good c c' n n' cycle o d g = tt
idle-Good c c' n n' missing o d g = g
idle-Good c c' n n' (returned r) o d g = absurd (let e = g.0 in cc)
idle-Good c c' n n' owning o d g = absurd (cc)
idle-Good c c' n n' computing o d g = absurd (cc)
idle-Good c c' n n' (storing r) o d g = absurd (cc)
idle-Good c c' n n' (loading r) o d g = absurd (cc)
idle-Good c c' n n' (linking r old) o d g = absurd (cc)
idle-Good c c' n n' (swapping r old) o d g = absurd (cc)
idle-Good c c' n n' (publishing r) o d g = absurd (cc)

-- An owner's memo is claimed and not done.
pub owner-Good :
    (c : Memo) (n : ℕ) (p : Phase)
    → owns p ≡ true
    → Good c n p
    → (c.claimed ≡ true) × (c.done ≡ false)
owner-Good c n entering o g = absurd (cc)
owner-Good c n waiting o g = absurd (cc)
owner-Good c n cycle o g = absurd (cc)
owner-Good c n missing o g = absurd (cc)
owner-Good c n (returned r) o g = absurd (cc)
owner-Good c n owning o g = (g.0, g.1)
owner-Good c n computing o g = (g.0, g.1)
owner-Good c n (storing r) o g = (g.0, g.1)
owner-Good c n (loading r) o g = (g.0, g.1)
owner-Good c n (linking r old) o g = (g.0, g.1)
owner-Good c n (swapping r old) o g = (g.0, g.1)
owner-Good c n (publishing r) o g = (g.0, g.1)

-- A chain goes by the links of the memos in it.
pub Chain-cong :
    (f g : ℕ → Memo) (head : Option ℕ) (l : List ℕ)
    → ((k : ℕ) → 0 < count k l → (f k).cleanup_next ≡ (g k).cleanup_next)
    → Chain f head l
    → Chain g head l
Chain-cong f g head [] kept c = c
Chain-cong f g head (k ∷ l) kept (e, c) = (
  e,
  rw (← kept k (ground (arith, (==_iff k k).1 refl)))
      (Chain-cong f g (f k).cleanup_next l (λ j there. kept j (omega arith)) c),
)
