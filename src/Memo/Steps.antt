-- ===== src/Memo/Steps.antt =====
-- Each step of a call keeps the invariant.
use idris2_rc.Prelude.{
  ℕ, ◌≡◌, ◌≢◌, ◌⊎◌, inl, inr, refl, sym, ap, ◌∙◌, true, false, List, Option, arith, ◌==◌,
  if◌then◌else◌, Bool-cases, ==_iff, ℕ_discrete,
}
use idris2_rc.Memo.{Phase, Memo, Memos, at_call, at_memo}
use idris2_rc.Memo.Tidy.{count, owns, Good, IsFair, Chain, IsTidy, idle-Good, Chain-cong}

if_self {ℓ} : {A : Type ℓ} (k : ℕ) (x y : A) → (if k == k then x else y) ≡ x
if_self k x y = ground (arith, (==_iff k k).1 refl)

if_ne {ℓ} : {A : Type ℓ} (k i : ℕ) (x y : A) → k ≢ i → (if k == i then x else y) ≡ y
if_ne k i x y ne = elim (Bool-cases (k == i)) [
  | inl e ↦ absurd (ne ((==_iff k i).0 e))
  | inr e ↦ rw e
]

module _ (memo_of : ℕ → ℕ) (s : Memos) (l : List ℕ) (t : IsTidy memo_of s l) (i : ℕ)
    (p : Phase) where
  -- A step that changes no memo, and neither takes nor gives up a claim.
  module _ (kept : owns p ≡ owns (s.calls i))
      (good : Good (s.memos (memo_of i)) (count (memo_of i) l) p) where
    owns_kept : (k : ℕ) → owns (if k == i then p else s.calls k) ≡ owns (s.calls k)
    owns_kept k = elim (ℕ_discrete k i) [
      | yes e ↦ rw (e, if_self i p (s.calls i)) kept
      | no ne ↦ rw (if_ne k i p (s.calls k) ne)
    ]

    pub move : IsTidy memo_of (at_call i p s) l
    unfolding at_call
    move = record {
      chain = t.chain;
      fair = t.fair;
      good = λ k. elim (ℕ_discrete k i) [
        | yes e ↦ rw (e, if_self i p (s.calls i)) good
        | no ne ↦ rw (if_ne k i p (s.calls k) ne) (t.good k)
      ];
      single = λ j k oj ok. t.single j k (sym (owns_kept j) ∙ oj) (sym (owns_kept k) ∙ ok);
      linked = λ m once. elim (t.linked m once) [
        | inl d ↦ inl d
        | inr (j, at, o) ↦ inr (j, at, owns_kept j ∙ o)
      ];
    }

  -- A step of the only call that owns the memo, or of the call that takes the claim.
  module _ (memos' : ℕ → Memo) (head' : Option ℕ) (l' : List ℕ)
      (undone : (s.memos (memo_of i)).done ≡ false)
      (alone : (j : ℕ) → j ≢ i → memo_of j ≡ memo_of i → owns (s.calls j) ≡ false)
      (elsewhere : (k : ℕ) → k ≢ memo_of i → (memos' k ≡ s.memos k) × (count k l' ≡ count k l))
      (chain' : Chain memos' head' l') (fair' : IsFair (memos' (memo_of i)) (count (memo_of i) l'))
      (good' : Good (memos' (memo_of i)) (count (memo_of i) l') p)
      (linked' : count (memo_of i) l' ≡ 1
        → ((memos' (memo_of i)).done ≡ true) ⊎ (owns p ≡ true)) where
    abbrev next : Memos
    next = record { memos = memos'; head = head'; calls = λ k. if k == i then p else s.calls k }

    next_ne : (k : ℕ) → k ≢ i → next.calls k ≡ s.calls k
    next_ne k ne = if_ne k i p (s.calls k) ne

    next_self : next.calls i ≡ p
    next_self = if_self i p (s.calls i)

    next-Good : (k : ℕ) → Good (memos' (memo_of k)) (count (memo_of k) l') (next.calls k)
    next-Good k = elim (ℕ_discrete k i) [
      | yes e ↦ rw (e, next_self) good'
      | no ne ↦ rw (next_ne k ne) (elim (ℕ_discrete (memo_of k) (memo_of i)) [
        | yes e ↦
            idle-Good (s.memos (memo_of k)) (memos' (memo_of k)) (count (memo_of k) l)
              (count (memo_of k) l') (s.calls k) (alone k ne e) (rw e undone) (t.good k)
        | no other ↦
            rw ((elsewhere (memo_of k) other).0, (elsewhere (memo_of k) other).1) (t.good k)
      ])
    ]

    next_single :
        (j k : ℕ)
        → owns (next.calls j) ≡ true
        → owns (next.calls k) ≡ true
        → memo_of j ≡ memo_of k
        → j ≡ k
    next_single j k oj ok at = elim (ℕ_discrete j i) [
      | yes e ↦ elim (ℕ_discrete k i) [
        | yes f ↦ e ∙ sym f
        | no ne ↦
            let idle = alone k ne (sym at ∙ ap memo_of e) in
            let busy = rw (next_ne k ne) at ok in absurd (cc)
      ]
      | no nj ↦ elim (ℕ_discrete k i) [
        | yes f ↦
            let idle = alone j nj (at ∙ ap memo_of f) in
            let busy = rw (next_ne j nj) at oj in absurd (cc)
        | no nk ↦ t.single j k (rw (next_ne j nj) at oj) (rw (next_ne k nk) at ok) at
      ]
    ]

    next_linked :
        (m : ℕ)
        → count m l' ≡ 1
        → ((memos' m).done ≡ true) ⊎ ((j : ℕ) × (memo_of j ≡ m) × (owns (next.calls j) ≡ true))
    next_linked m once = elim (ℕ_discrete m (memo_of i)) [
      | yes e ↦ elim (linked' (rw e at once)) [
        | inl d ↦ inl (rw e d)
        | inr o ↦ inr (i, sym e, rw next_self o)
      ]
      | no ne ↦ elim (t.linked m (sym (elsewhere m ne).1 ∙ once)) [
        | inl d ↦ inl (rw (elsewhere m ne).0 d)
        | inr (j, at, o) ↦
            let away : j ≢ i = λ e. ne (sym at ∙ ap memo_of e) in inr (j, at, rw (next_ne j away) o)
      ]
    ]

    pub advance : IsTidy memo_of next l'
    advance = record {
      chain = chain';
      fair = λ m. elim (ℕ_discrete m (memo_of i)) [
        | yes e ↦ rw e fair'
        | no ne ↦ rw ((elsewhere m ne).0, (elsewhere m ne).1) (t.fair m)
      ];
      good = next-Good;
      single = next_single;
      linked = next_linked;
    }

  -- A step that changes one memo and leaves the list as it is.
  module _ (c : Memo) (undone : (s.memos (memo_of i)).done ≡ false)
      (alone : (j : ℕ) → j ≢ i → memo_of j ≡ memo_of i → owns (s.calls j) ≡ false)
      (links : (c.cleanup_next ≡ (s.memos (memo_of i)).cleanup_next) ⊎ (count (memo_of i) l ≡ 0))
      (fair' : IsFair c (count (memo_of i) l)) (good' : Good c (count (memo_of i) l) p)
      (linked' : count (memo_of i) l ≡ 1 → (c.done ≡ true) ⊎ (owns p ≡ true)) where
    abbrev written : ℕ → Memo
    written k = if k == memo_of i then c else s.memos k

    written-Chain : Chain written s.head l
    written-Chain =
        Chain-cong s.memos written s.head l
          (λ k there. elim (ℕ_discrete k (memo_of i)) [
            | yes e ↦ elim links [
              | inl kept ↦ rw (e, if_self (memo_of i) c (s.memos (memo_of i))) (sym kept)
              | inr absent ↦ absurd (let gone = rw (← e) at absent in omega arith)
            ]
            | no ne ↦ rw (if_ne k (memo_of i) c (s.memos k) ne)
          ])
          t.chain

    pub rewrite_memo : IsTidy memo_of (at_call i p (at_memo (memo_of i) c s)) l
    unfolding at_call at_memo
    rewrite_memo =
        let self = if_self (memo_of i) c (s.memos (memo_of i)) in
        advance written s.head l undone alone (λ k ne. (if_ne k (memo_of i) c (s.memos k) ne, refl))
          written-Chain (rw self fair') (rw self good') (rw self linked')
