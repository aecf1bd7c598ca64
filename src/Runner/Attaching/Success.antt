-- ===== src/Runner/Attaching/Success.antt =====
-- runner.go: when a pod that is followed to its end counts as a success.
use theatre.Prelude.{
  ◌≡◌, refl, ap, ◌∙◌, sym, ◌⊎◌, String, true, none, List, [], ◌∷◌, Result, ok, err, Failure, arith,
  Bool-cases, inl, inr,
}
use theatre.Kubernetes.Workload.{Pod, PodPhase}
use theatre.Console.{Console}
use theatre.Runner.{Api, Delivered, object, unexpected, check_pod_state}
use theatre.Runner.Attaching.{
  get_attachable_pod, wait_for_success, follow_pod, is_not_found, pod_precondition, pod_condition,
  key_of_pod,
}
use theatre.Runner.Waiting.{without_result}
use theatre.Runner.Waiting.Watching.{IsWatch, synced-ok, Seen, stored, sent, Sent}

check_pod_state-done :
    (pod : Pod) → check_pod_state pod ≡ (true, none) → pod.phase ≡ PodPhase.succeeded
unfolding check_pod_state
check_pod_state-done pod h = ground arith

module _ {S Raw : Type 0} (k : Api S Raw) (pods : IsWatch k.until_pods) where
  -- The pod is gone, or the watch of its name saw it succeed.
  abbrev pub IsOver : Pod → S → Type 0
  IsOver pod s =
      (pods.items (key_of_pod pod) s ≡ [])
      ⊎ ((seen : Pod) × Seen (pods.items (key_of_pod pod) s) (pods.events (key_of_pod pod) s) seen
          × (seen.phase ≡ PodPhase.succeeded))

  IsOver-item :
      (pod : Pod) (s : S) (items : List Pod)
      → pods.items (key_of_pod pod) s ≡ items
      → (pod_precondition k items tt).0 ≡ (true, none)
      → IsOver pod s
  unfolding pod_precondition
  IsOver-item pod s [] e h = inl e
  IsOver-item pod s (first ∷ rest) e h = inr (first, stored rest e, check_pod_state-done first h)

  IsOver-event :
      (pod : Pod) (s : S) (e : Delivered Pod)
      → Sent e (pods.events (key_of_pod pod) s)
      → (pod_condition k e tt).0 ≡ (true, none)
      → IsOver pod s
  unfolding pod_condition
  IsOver-event pod s (unexpected t) sent_ h = cc
  IsOver-event pod s (object seen) sent_ h = inr (seen, sent sent_, check_pod_state-done seen h)

  follow_pod-IsOver :
      (found : Result (Pod × String)) (s s' : S)
      → follow_pod k found s ≡ (ok tt, s')
      → ((e : Failure) × (found ≡ err e) × (is_not_found e ≡ true))
        ⊎ ((pod : Pod) × (name : String) × (found ≡ ok (pod, name)) × IsOver pod s)
  unfolding follow_pod without_result
  follow_pod-IsOver (err e) s s' h = elim (Bool-cases (is_not_found e)) [
    | inl gone ↦ inl (e, refl, gone)
    | inr other ↦ absurd (ground (arith, h))
  ]
  follow_pod-IsOver (ok (pod, name)) s s' h =
      let n = key_of_pod pod in
      let pre = pod_precondition k in
      let cond = pod_condition k in
      let answered : (k.until_pods n pre cond (tt, s)).0 ≡ ok tt = ap (λ p. p.0) h in
      let (same, _) = pods.runs n s pre cond tt in
      inr (
        pod,
        name,
        refl,
        elim (synced-ok pods.timeout cond pre (pods.items n s) (pods.events n s) tt
            (sym same ∙ answered)) [
              | inl (done, _) ↦ IsOver-item pod s (pods.items n s) refl done
              | inr (ev, _, sent_, done, _) ↦ IsOver-event pod s ev sent_ done
            ],
      )

  -- When following a console's pod succeeds, the pod could not be found, or was gone when the watch
  -- began, or was seen to succeed.
  pub wait_for_success-IsOver :
      (csl : Console) (s s' : S)
      → wait_for_success k csl s ≡ (ok tt, s')
      → ((e : Failure) × (get_attachable_pod k csl s ≡ err e) × (is_not_found e ≡ true))
        ⊎ ((pod : Pod) × (name : String) × (get_attachable_pod k csl s ≡ ok (pod, name))
            × IsOver pod s)
  unfolding wait_for_success
  wait_for_success-IsOver csl s s' h = follow_pod-IsOver (get_attachable_pod k csl s) s s' h
