-- ===== src/Assistant/Machine/Local.antt =====
-- From one conversation to all: a step on one host's conversation keeps the invariant.
use connect_hub.Base.{
  ◌≡◌, refl, ◌∙◌, subst, String, false, List, [], ◌∷◌, ◌++◌, Option, none, some, arith, ◌==◌,
  eq_iff, Bool-cases, inl, inr, append-nil,
}
use connect_hub.Assistant.{AiConversation, AiState, get_conversation}
use connect_hub.Assistant.Actions.{Task}
use connect_hub.Assistant.Machine.{task_host, add_task, after, tasks_of, Fits, Inv}

abbrev pub IsFor : String → Option Task → Type 0
IsFor h none = Unit {0}
IsFor h (some t) = task_host t ≡ h

-- A result that concerns the conversation of `h` alone and leaves it in order.
pub record Local (s : AiState) (h : String) (r : AiState × Option Task) : Type 0 where
  pub frame : (j : String) → (h == j) ≡ false → get_conversation r.0 j ≡ get_conversation s j
  pub own : IsFor h r.1
  pub fits : Fits (get_conversation r.0 h) (add_task [] r.1)

pub tasks_of-append :
    (h : String) (xs ys : List Task) → tasks_of h (xs ++ ys) ≡ tasks_of h xs ++ tasks_of h ys
tasks_of-append h [] ys = refl
tasks_of-append h (x ∷ xs) ys = ground (arith, tasks_of-append h xs ys)

pub tasks_of-add_other :
    (h j : String) (ts : List Task) (o : Option Task)
    → IsFor h o
    → (h == j) ≡ false
    → tasks_of j (add_task ts o) ≡ tasks_of j ts
tasks_of-add_other h j ts none own e = refl
tasks_of-add_other h j ts (some t) own e =
    tasks_of-append j ts (t ∷ []) ∙ rw (own, e) (append-nil _)

tasks_of-add_own :
    (h : String) (ts : List Task) (o : Option Task)
    → IsFor h o
    → tasks_of h ts ≡ []
    → tasks_of h (add_task ts o) ≡ add_task [] o
tasks_of-add_own h ts none own e = e
tasks_of-add_own h ts (some t) own e =
    tasks_of-append h ts (t ∷ []) ∙ rw (e, own, (eq_iff h h).1 refl)

module _ (s : AiState) (h : String) (r : AiState × Option Task) (l : Local s h r) where
  -- Nothing is awaited for the conversation, and the result may await one call for it.
  pub Local-Inv :
      (ts : List Task)
      → Inv (record { state = s; tasks = ts })
      → tasks_of h ts ≡ []
      → Inv (after ts r)
  Local-Inv ts v idle j = elim (Bool-cases (h == j)) [
    | inr other ↦ rw (tasks_of-add_other h j ts r.1 l.own other, l.frame j other) (v j)
    | inl same ↦
        let e : h ≡ j = (eq_iff h j).0 same in
        subst (λ k. Fits (get_conversation r.0 k) (tasks_of k (add_task ts r.1))) e
          (rw (tasks_of-add_own h ts r.1 l.own idle) l.fits)
  ]

-- A task is the only one awaited for its conversation.
only_task :
    (c : AiConversation) (xs ys : List Task) (t : Task) → Fits c (xs ++ (t ∷ ys)) → xs ++ ys ≡ []
only_task c [] [] t f = refl
only_task c [] (y ∷ ys) t f = absurd f
only_task c (x ∷ []) ys t f = absurd f
only_task c (x ∷ x' ∷ xs) ys t f = absurd f

pub Fits-only :
    (c : AiConversation) (xs ys : List Task) (t : Task) → Fits c (xs ++ (t ∷ ys)) → Fits c (t ∷ [])
Fits-only c [] [] t f = f
Fits-only c [] (y ∷ ys) t f = absurd f
Fits-only c (x ∷ []) ys t f = absurd f
Fits-only c (x ∷ x' ∷ xs) ys t f = absurd f

module _ (s : AiState) (before behind : List Task) (t : Task)
    (v : Inv (record { state = s; tasks = before ++ (t ∷ behind) })) where
  at_task :
      tasks_of (task_host t) (before ++ (t ∷ behind))
      ≡ tasks_of (task_host t) before ++ (t ∷ tasks_of (task_host t) behind)
  at_task =
      tasks_of-append (task_host t) before (t ∷ behind)
      ∙ rw ((eq_iff (task_host t) (task_host t)).1 refl)

  own-Fits :
      Fits
        (get_conversation s (task_host t))
        (tasks_of (task_host t) before ++ (t ∷ tasks_of (task_host t) behind))
  own-Fits = subst (Fits (get_conversation s (task_host t))) at_task (v (task_host t))

  -- What is known of a conversation when a call for it is answered.
  pub answered-Fits : Fits (get_conversation s (task_host t)) (t ∷ [])
  answered-Fits =
      Fits-only (get_conversation s (task_host t)) (tasks_of (task_host t) before)
        (tasks_of (task_host t) behind) t own-Fits

  -- Nothing else is awaited for it.
  pub answered_idle : tasks_of (task_host t) (before ++ behind) ≡ []
  answered_idle =
      tasks_of-append (task_host t) before behind
      ∙ only_task (get_conversation s (task_host t)) (tasks_of (task_host t) before)
          (tasks_of (task_host t) behind) t own-Fits

  pub answered_Inv :
      (r : AiState × Option Task) → Local s (task_host t) r → Inv (after (before ++ behind) r)
  answered_Inv r l j =
      let h = task_host t in
      elim (Bool-cases (h == j)) [
        | inr other ↦
            let rest : tasks_of j (before ++ (t ∷ behind)) ≡ tasks_of j (before ++ behind) =
              tasks_of-append j before (t ∷ behind) ∙ rw (other, tasks_of-append j before behind) in
            rw (tasks_of-add_other h j (before ++ behind) r.1 l.own other, l.frame j other)
              (subst (Fits (get_conversation s j)) rest (v j))
        | inl same ↦
            let e : h ≡ j = (eq_iff h j).0 same in
            subst
              (λ k. Fits (get_conversation r.0 k) (tasks_of k (add_task (before ++ behind) r.1))) e
              (rw (tasks_of-add_own h (before ++ behind) r.1 l.own answered_idle) l.fits)
      ]
