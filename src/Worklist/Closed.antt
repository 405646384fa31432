-- ===== src/Worklist/Closed.antt =====
-- The loop on a worklist marks what can be reached from the queue, and nothing else.
use mathlib.Core.List.{Memᴰ}
use mathlib.Core.List.Memᴰ
use poly_cminus.Prelude.{
  ℕ, zero, suc, ◌+◌, ◌≤◌, length, length-append, Memᴰ-append, Option, Option-cases, Bool, true,
  some, List, [], ◌∷◌, ◌≡◌, refl, sym, ap, ◌∙◌, inl, inr, ◌⊎◌, subst, arith,
}
use poly_cminus.Worklist.{Pending, each, work}
use poly_cminus.Worklist.Left.{left}
use poly_cminus.Worklist.Touched.{Marking, Touched, each-Touched}

-- What every step keeps, the loop keeps.
pub work-keeps :
    {F : Type 0} (process : ℕ → Pending F → Option (Pending F)) (Q : F → Type 0)
    → ((x : ℕ) (s s' : Pending F) → process x s ≡ some s' → Q s.flags → Q s'.flags)
    → (fuel : ℕ) (f : F) (q : List ℕ) {s' : Pending F} → Q f
    → work process fuel (record { flags = f; queue = q }) ≡ some s'
    → Q s'.flags
unfolding work
work-keeps process Q step zero f [] {s'} h e =
    let same : record { flags = f; queue = [] } ≡ s' = cc in
    subst (λ (s : Pending _). Q s.flags) same h
work-keeps process Q step zero f (x ∷ q) h e = cc
work-keeps process Q step (suc fuel) f [] {s'} h e =
    let same : record { flags = f; queue = [] } ≡ s' = cc in
    subst (λ (s : Pending _). Q s.flags) same h
work-keeps process Q step (suc fuel) f (x ∷ q) h e =
    elim (Option-cases (process x (record { flags = f; queue = q }))) [
      | inl nothing ↦ cc (rw nothing at e)
      | inr (s, ran) ↦
          work-keeps process Q step fuel s.flags s.queue (step x _ s ran h) (rw ran at e)
    ]

module _ {F : Type 0} (marked : F → ℕ → Bool) (touch : ℕ → Pending F → Pending F)
    (laws : Marking marked touch) where
  module _ (process : ℕ → Pending F → Option (Pending F)) (next : ℕ → List ℕ) (us : List ℕ)
      (touches : (x : ℕ) (s : Pending F) → Memᴰ x us → process x s ≡ some (each touch (next x) s))
      (within : (x y : ℕ) → Memᴰ x us → Memᴰ y (next x) → Memᴰ y us) where
    -- Of the elements that are marked, the next ones are marked, or it is still in the queue.
    pub record IsReady (s : Pending F) : Type 0 where
      pub queue_within : (x : ℕ) → Memᴰ x s.queue → Memᴰ x us
      pub queue_marked : (x : ℕ) → Memᴰ x s.queue → marked s.flags x ≡ true
      pub closed :
          (x : ℕ)
          → Memᴰ x us
          → marked s.flags x ≡ true
          → Memᴰ x s.queue ⊎ ((y : ℕ) → Memᴰ y (next x) → marked s.flags y ≡ true)

    pub record Done (s s' : Pending F) : Type 1 where
      pub kept : (x : ℕ) → marked s.flags x ≡ true → marked s'.flags x ≡ true
      pub closed :
          (x y : ℕ)
          → Memᴰ x us
          → marked s'.flags x ≡ true
          → Memᴰ y (next x)
          → marked s'.flags y ≡ true
      pub least :
          (P : ℕ → Type 0)
          → ((x : ℕ) → Memᴰ x us → marked s.flags x ≡ true → P x)
          → ((x y : ℕ) → Memᴰ x us → P x → Memᴰ y (next x) → P y)
          → (x : ℕ) → Memᴰ x us
          → marked s'.flags x ≡ true
          → P x

    step-IsReady :
        {x : ℕ} {q : List ℕ} {f : F} {s : Pending F}
        → IsReady (record { flags = f; queue = x ∷ q })
        → Touched marked touch laws (next x) (record { flags = f; queue = q }) s
        → IsReady s
    step-IsReady {x} {q} {f} {s} r t =
        let in_queue : (y : ℕ) → Memᴰ y s.queue → Memᴰ y q ⊎ Memᴰ y t.added =
          λ y n. Memᴰ-append q (subst (Memᴰ y) t.queued n) in
        record {
          queue_within = λ y n. elim (in_queue y n) [
            | inl n' ↦ r.queue_within y (Memᴰ.tail n')
            | inr n' ↦ within x y (r.queue_within x (Memᴰ.head refl)) (t.among y n')
          ];
          queue_marked = λ y n. elim (in_queue y n) [
            | inl n' ↦ t.kept y (r.queue_marked y (Memᴰ.tail n'))
            | inr n' ↦ t.all y (t.among y n')
          ];
          closed = λ y m e. elim (t.new y e) [
            | inl old ↦ elim (r.closed y m old) [
              | inl n ↦ elim (Memᴰ.cases_cons n) [
                | inl y≡x ↦ inr (λ z n'. t.all z (subst (λ w. Memᴰ z (next w)) y≡x n'))
                | inr n' ↦ inl (subst (Memᴰ y) (sym t.queued) (Memᴰ.append_left t.added n'))
              ]
              | inr all ↦ inr (λ z n. t.kept z (all z n))
            ]
            | inr n ↦ inl (subst (Memᴰ y) (sym t.queued) (Memᴰ.append_right q n))
          ];
        }

    step-Done :
        {x : ℕ} {q : List ℕ} {f : F} {s s' : Pending F}
        → IsReady (record { flags = f; queue = x ∷ q })
        → Touched marked touch laws (next x) (record { flags = f; queue = q }) s
        → Done s s'
        → Done (record { flags = f; queue = x ∷ q }) s'
    step-Done {x} {q} {f} {s} {s'} r t d =
        let mx = r.queue_within x (Memᴰ.head refl) in
        record {
          kept = λ y e. d.kept y (t.kept y e);
          closed = d.closed;
          least = λ P start step.
              d.least P
                (λ y m e. elim (t.new y e) [
                  | inl old ↦ start y m old
                  | inr n ↦
                      step x y mx (start x mx (r.queue_marked x (Memᴰ.head refl))) (t.among y n)
                ])
                step;
        }

    stop_Done :
        {f : F}
        → IsReady (record { flags = f; queue = [] })
        → Done (record { flags = f; queue = [] }) (record { flags = f; queue = [] })
    stop_Done r = record {
      kept = λ x e. e;
      closed = λ x y m e n. elim (r.closed x m e) [
        | inl none_left ↦ absurd (Memᴰ.not-nil none_left)
        | inr all ↦ all y n
      ];
      least = λ P start step. start;
    }

    -- On fuel for the elements that are not marked and those in the queue the loop returns.
    pub work-Done :
        (fuel : ℕ) (f : F) (q : List ℕ)
        → IsReady (record { flags = f; queue = q })
        → left us (marked f) + length q ≤ fuel
        → (s' : Pending F) × (work process fuel (record { flags = f; queue = q }) ≡ some s')
          × Done (record { flags = f; queue = q }) s'
    unfolding work
    work-Done zero f [] r enough = (record { flags = f; queue = [] }, refl, stop_Done r)
    work-Done (suc fuel) f [] r enough = (record { flags = f; queue = [] }, refl, stop_Done r)
    work-Done zero f (x ∷ q) r enough = absurd (omega (arith, enough))
    work-Done (suc fuel) f (x ∷ q) r enough =
        let s = each touch (next x) (record { flags = f; queue = q }) in
        let t : Touched marked touch laws (next x) (record { flags = f; queue = q }) s =
          each-Touched marked touch laws (next x) _ in
        let queue_length = ap length t.queued ∙ length-append q t.added in
        let cost = t.paid us (λ y. within x y (r.queue_within x (Memᴰ.head refl))) in
        let (s', ran, d) =
          work-Done fuel s.flags s.queue (step-IsReady r t)
            (omega (arith, enough, queue_length, cost)) in
        (
          s',
          rw (touches x (record { flags = f; queue = q }) (r.queue_within x (Memᴰ.head refl))) ran,
          step-Done r t d,
        )
