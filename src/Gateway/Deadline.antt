-- ===== src/Gateway/Deadline.antt =====
-- `next_deadline_ms` of gateway/src/main.cpp: how long the main loop may wait in `zsock_poll`.
use climate_node.Common.{
  ℕ, ◌+◌, ◌-◌, ◌^◌, ◌≤◌, ◌<◌, ◌≡◌, refl, ◌⊎◌, inl, inr, List, [], ◌∷◌, Option, none, some, ltb,
  if◌then◌else◌, arith, sym, ◌∙◌, subst,
}
use climate_node.Gateway.{SessionState, idle, connecting, serving, NodeSession}
use climate_node.Gateway.Pass.{Timely}

-- A session with what `mqtt_keepalive_time_left` returns for it, none if that is negative.
pub record Watched : Type 0 where
  pub session : NodeSession
  pub keepalive_left : Option ℕ

-- A deadline that has passed is due in 0 ms: subtraction stops there, as the code makes it.
due_in : SessionState → ℕ → Watched → Option ℕ
due_in idle now w = some (w.session.retry_at - now)
due_in connecting now w = some (w.session.connack_due - now)
due_in serving now w = w.keepalive_left

unfoldable pub due : ℕ → Watched → Option ℕ
unfolding due_in
due now w = due_in w.session.state now w

-- none stands for -1.
unfoldable pub nearest : Option ℕ → Option ℕ → Option ℕ
nearest best none = best
nearest none (some d) = some d
nearest (some best) (some d) = if ltb d best then some d else some best

unfoldable pub best_from : Option ℕ → ℕ → List Watched → Option ℕ
best_from best now [] = best
best_from best now (w ∷ ws) = best_from (nearest best (due now w)) now ws

unfoldable pub next_deadline_ms : ℕ → List Watched → Option ℕ
next_deadline_ms now ws = best_from none now ws

-- A deadline, if there is one, is at `o` or after.
abbrev pub Covers : Option ℕ → Option ℕ → Type 0
Covers o none = Unit {0}
Covers none (some d) = ⊥
Covers (some e) (some d) = e ≤ d

abbrev pub CoversAll : Option ℕ → ℕ → List Watched → Type 0
CoversAll o now [] = Unit {0}
CoversAll o now (w ∷ ws) = Covers o (due now w) × CoversAll o now ws

-- One of the sessions has `o` as its deadline.
abbrev pub Meets : Option ℕ → ℕ → List Watched → Type 0
Meets o now [] = ⊥
Meets o now (w ∷ ws) = (due now w ≡ o) ⊎ Meets o now ws

abbrev pub FitsInt : Option ℕ → Type 0
FitsInt none = Unit {0}
FitsInt (some d) = d < 2 ^ 31

Covers-refl : (o : Option ℕ) → Covers o o
Covers-refl none = tt
Covers-refl (some d) = omega arith

Covers-trans : (o p q : Option ℕ) → Covers o p → Covers p q → Covers o q
Covers-trans o p none h k = tt
Covers-trans none (some e) (some d) h k = h
Covers-trans none none (some d) h k = elim k [ ]
Covers-trans (some f) none (some d) h k = elim k [ ]
Covers-trans (some f) (some e) (some d) h k = omega arith

Covers-nearest : (o p : Option ℕ) → Covers (nearest o p) o × Covers (nearest o p) p
unfolding nearest
Covers-nearest o none = (Covers-refl o, tt)
Covers-nearest none (some d) = (tt, omega arith)
Covers-nearest (some e) (some d) = ground arith

nearest_either : (o p : Option ℕ) → (nearest o p ≡ o) ⊎ (nearest o p ≡ p)
unfolding nearest
nearest_either o none = inl refl
nearest_either none (some d) = inr refl
nearest_either (some e) (some d) = ground arith

Covers-best_from :
    (best : Option ℕ) (now : ℕ) (ws : List Watched)
    → Covers (best_from best now ws) best × CoversAll (best_from best now ws) now ws
unfolding best_from
Covers-best_from best now [] = (Covers-refl best, tt)
Covers-best_from best now (w ∷ ws) =
    let rest = Covers-best_from (nearest best (due now w)) now ws in
    let near = Covers-nearest best (due now w) in
    (Covers-trans _ _ best rest.0 near.0, (Covers-trans _ _ (due now w) rest.0 near.1, rest.1))

best_from_met :
    (best : Option ℕ) (now : ℕ) (ws : List Watched)
    → (best_from best now ws ≡ best) ⊎ Meets (best_from best now ws) now ws
unfolding best_from
best_from_met best now [] = inl refl
best_from_met best now (w ∷ ws) = elim (best_from_met (nearest best (due now w)) now ws) [
  | inr met ↦ inr (inr met)
  | inl same ↦ elim (nearest_either best (due now w)) [
    | inl e ↦ inl (same ∙ e)
    | inr e ↦ inr (inl (sym (same ∙ e)))
  ]
]

abbrev pub AllTimely : ℕ → List Watched → Type 0
AllTimely now [] = Unit {0}
AllTimely now (w ∷ ws) = (Timely now w.session × FitsInt w.keepalive_left) × AllTimely now ws

FitsInt-due_in :
    (q : SessionState) (w : Watched) (u now : ℕ)
    → u ≤ now + 2 ^ 30
    → Timely u w.session
    → FitsInt w.keepalive_left
    → FitsInt (due_in q now w)
unfolding due_in
FitsInt-due_in idle w u now h t k = omega arith
FitsInt-due_in connecting w u now h t k = omega arith
FitsInt-due_in serving w u now h t k = k

FitsInt-due :
    (w : Watched) (u now : ℕ)
    → u ≤ now + 2 ^ 30
    → Timely u w.session
    → FitsInt w.keepalive_left
    → FitsInt (due now w)
unfolding due
FitsInt-due w u now h t k = FitsInt-due_in w.session.state w u now h t k

FitsInt-best_from :
    (best : Option ℕ) (u now : ℕ) (ws : List Watched)
    → u ≤ now + 2 ^ 30
    → FitsInt best
    → AllTimely u ws
    → FitsInt (best_from best now ws)
unfolding best_from
FitsInt-best_from best u now [] h b t = b
FitsInt-best_from best u now (w ∷ ws) h b t =
    let d = FitsInt-due w u now h t.0.0 t.0.1 in
    FitsInt-best_from (nearest best (due now w)) u now ws h
      (elim (nearest_either best (due now w)) [
        | inl e ↦ subst FitsInt (sym e) b
        | inr e ↦ subst FitsInt (sym e) d
      ])
      t.1

-- Of sessions whose deadlines are no further ahead than the passes of the loop leave them, at an
-- uptime that may have moved on from `now` by the time that connecting takes (less than 2^30 ms), and
-- whose keepalive time is an int: the result is before or at every deadline, one of the sessions has
-- it, and it fits an int, so that the cast at the end changes nothing; there is no result, -1 in the
-- code, only if no session has a deadline.
pub next_deadline_ms_lem :
    (u now : ℕ) (ws : List Watched)
    → u ≤ now + 2 ^ 30
    → AllTimely u ws
    → let o = next_deadline_ms now ws in
      CoversAll o now ws × ((o ≡ none) ⊎ Meets o now ws) × FitsInt o
unfolding next_deadline_ms
next_deadline_ms_lem u now ws h t = (
  (Covers-best_from none now ws).1,
  best_from_met none now ws,
  FitsInt-best_from none u now ws h tt t,
)
