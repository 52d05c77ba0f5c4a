-- ===== src/Sched/Fair.antt =====
-- kernel/tasks/sched.c: no ready thread waits for ever while the others keep running.
use mathlib.Core.Path.{subst}
use mathlib.Core.List.{append_assoc}
use model_lib.Common.{
  ℕ, suc, ◌<◌, ◌≡◌, ◌≢◌, refl, sym, ap, ◌∙◌, true, false, Option, some, List, [], ◌∷◌, ◌++◌, arith,
  ◌==◌, add32, and_then, length, length-append, ap₂,
}
use model_lib.Sched.{
  Ptr, null, running, Thread, Sched, is_ready, unlink_first, sched_task, sched_unlock, retire,
  proc_switch_to_thread, switch_to, then_switch, switch_task,
}
use model_lib.Sched.Queue.{Fresh, Fresh-append, update-next, update_self, update_ne}
use model_lib.Sched.Ready.{linked, sched_task-linked}
use model_lib.Sched.Rotate.{
  get_next_task-first, switch_task-on, sched_task-state, sched_task-cur, stopped, put_by,
  put_by-state, retire-state,
}
use model_lib.Sched.Chain.{
  Chain, Chain-first, Chain-last, Chain-append, Chain-next, Ready, Ready-same, Ready-append,
}

-- `c` runs, and the ready list holds the ready threads `xs`; the idle task is none of them.
pub record Rotates (s : Sched) (c : Ptr) (xs : List Ptr) : Type 0 where
  pub current : s.cur_task ≡ c
  pub runs : (s.threads c).state ≡ running
  pub some_task : c ≢ null
  pub list : Chain s.threads xs s.ready_list_start s.ready_list_end
  pub ready : Ready s.threads xs
  pub apart : Fresh c xs
  pub idle : Fresh s.idle_task (c ∷ xs)
  pub on : s.switching_flag ≡ true

retire-Chain :
    (s : Sched) (c y : Ptr) (r : List Ptr) (ms : ℕ)
    → (s.threads c).state ≡ running
    → Chain s.threads (y ∷ r) s.ready_list_start s.ready_list_end
    → c ≢ s.idle_task
    → c ≢ null
    → Fresh c (y ∷ r)
    → let t = retire s c ms in
      Chain t.threads ((y ∷ r) ++ c ∷ []) t.ready_list_start t.ready_list_end
retire-Chain s c y r ms run q busy ne f =
    let by = put_by s c run ms in
    let q' =
      Chain-next s.threads by.threads (y ∷ r) _ _
        (update-next s.threads c (stopped s c run ms) refl) q in
    let l = linked by c in
    let e =
      sched_task-linked by c (put_by-state s c run ms) busy (Chain-last by.threads y r _ _ q') in
    let done : Chain l.threads ((y ∷ r) ++ c ∷ []) l.ready_list_start l.ready_list_end =
      Chain-append by.threads y r c _ _ q' f ne in
    let after = sched_task by c in
    let done' : Chain after.threads ((y ∷ r) ++ c ∷ []) after.ready_list_start
        after.ready_list_end =
      subst (λ (u : Sched). Chain u.threads ((y ∷ r) ++ c ∷ []) u.ready_list_start u.ready_list_end)
        (sym e) done in
    Chain-next after.threads (retire s c ms).threads ((y ∷ r) ++ c ∷ []) _ _
      (update-next after.threads c _ refl) done'

sched_task-same :
    (s : Sched) (th : Ptr)
    → ((sched_task s th).idle_task ≡ s.idle_task)
      × ((sched_task s th).switching_flag ≡ s.switching_flag)
unfolding sched_task
sched_task-same s th = (ground arith, ground arith)

-- A switch from `c` to `x`, past the choice of `x`.
switch_to-Rotates :
    (ms : ℕ) (s : Sched) (c x y : Ptr) (r : List Ptr)
    → Chain s.threads (y ∷ r) s.ready_list_start s.ready_list_end
    → c ≢ x
    → x ≢ null
    → (s.threads c).state ≡ running
    → c ≢ null
    → Fresh c (y ∷ r)
    → Fresh x (y ∷ r)
    → Fresh s.idle_task (c ∷ x ∷ y ∷ r)
    → Ready s.threads (y ∷ r)
    → s.switching_flag ≡ true
    → Rotates (switch_to ms c (x, s)) x ((y ∷ r) ++ c ∷ [])
unfolding switch_to proc_switch_to_thread sched_unlock
switch_to-Rotates ms s c x y r q apart some_x run ne f fx idle ready on =
    let s' = record s { cur_task = x } in
    let gone = retire s' c ms in
    let t : Thread = record (gone.threads x) { state = running } in
    let switched : (c == x) ≡ false = ground arith in
    let done = sched_unlock (proc_switch_to_thread gone x) in
    let by = put_by s' c run ms in
    let same = sched_task-same by c in
    let busy : c ≢ s.idle_task = λ e. idle.0 (sym e) in
    let others : (p : Ptr) → p ≢ c → (gone.threads p).state ≡ (s.threads p).state = λ p h.
      ap (λ u. u.state) (update_ne (sched_task by c).threads c p _ h)
      ∙ sched_task-state by c p
      ∙ ap (λ u. u.state) (update_ne s.threads c p _ h) in
    let gone-ready : Ready gone.threads ((y ∷ r) ++ c ∷ []) =
      Ready-append gone.threads (y ∷ r) c
        (Ready-same s.threads gone.threads c (y ∷ r) f others ready) (retire-state s' c run ms) in
    let fresh-all = Fresh-append x (y ∷ r) c fx (λ e. apart (sym e)) in
    let rotates : Rotates done x ((y ∷ r) ++ c ∷ []) = record {
      current = sched_task-cur by c;
      runs = ap (λ u. u.state) (update_self gone.threads x t);
      some_task = some_x;
      list =
          Chain-next gone.threads done.threads ((y ∷ r) ++ c ∷ []) _ _
            (update-next gone.threads x t refl) (retire-Chain s' c y r ms run q busy ne f);
      ready =
          Ready-same gone.threads done.threads x ((y ∷ r) ++ c ∷ []) fresh-all
            (λ p h. ap (λ u. u.state) (update_ne gone.threads x p t h)) gone-ready;
      apart = fresh-all;
      idle =
          subst (λ p. Fresh p (x ∷ (y ∷ r) ++ c ∷ [])) (sym same.0)
            (idle.1.0, Fresh-append s.idle_task (y ∷ r) c idle.1.1 idle.0);
      on = same.1 ∙ on;
    } in
    rw switched rotates

-- One switch.
switch_task-Rotates :
    (fuel ms : ℕ) (s : Sched) (c x y : Ptr) (r : List Ptr)
    → Rotates s c (x ∷ y ∷ r)
    → (t : Sched) × (switch_task (suc fuel) ms s ≡ some t) × Rotates t x ((y ∷ r) ++ c ∷ [])
switch_task-Rotates fuel ms s c x y r h =
    let locked = record s { sched_slock = add32 s.sched_slock 1 } in
    let u = unlink_first locked in
    let at : s.ready_list_start ≡ x = h.list.0 in
    let start-ready : is_ready (s.threads s.ready_list_start).state ≡ true =
      ap (λ p. is_ready (s.threads p).state) at ∙ ap is_ready h.ready.0 in
    let found = get_next_task-first fuel locked (λ e. h.list.1 (sym at ∙ e)) start-ready in
    let tail : Chain s.threads (y ∷ r) (s.threads s.ready_list_start).next s.ready_list_end =
      subst (λ p. Chain s.threads (y ∷ r) (s.threads p).next s.ready_list_end) (sym at) h.list.3 in
    let next = Chain-first s.threads y r _ _ tail in
    let some_next : ((s.threads s.ready_list_start).next == null) ≡ false = ground arith in
    let rest : Chain u.threads (y ∷ r) u.ready_list_start u.ready_list_end = rw some_next tail in
    (
      switch_to ms c (x, u),
      switch_task-on (suc fuel) ms s h.on
          ∙ ap (then_switch ms s.cur_task) found
          ∙ ap₂ (λ p q. some (switch_to ms p (q, u))) h.current at,
      switch_to-Rotates ms u c x y r rest h.apart.0 h.list.1 h.runs h.some_task h.apart.1 h.list.2
          h.idle h.ready.1 h.on,
    )

-- Calls of `_switch_task` at these times, one behind the other.
unfoldable pub switches_at : ℕ → List ℕ → Sched → Option Sched
switches_at fuel [] s = some s
switches_at fuel (ms ∷ times) s = and_then (switch_task fuel ms s) (switches_at fuel times)

-- A switch with more than one thread in the list, however it is written.
rotate :
    (fuel ms : ℕ) (s : Sched) (c x : Ptr) (l : List Ptr)
    → 0 < length l
    → Rotates s c (x ∷ l)
    → (t : Sched) × (switch_task (suc fuel) ms s ≡ some t) × Rotates t x (l ++ c ∷ [])
rotate fuel ms s c x [] p h = absurd (omega arith)
rotate fuel ms s c x (y ∷ r) p h = switch_task-Rotates fuel ms s c x y r h

-- Round robin: while switching is on, `c` runs, and the ready list holds two threads or more, all of
-- them ready, every thread of the list runs after exactly as many calls of `_switch_task` as there
-- are threads before it and one more. No call hangs.
pub switches_at-runs :
    (fuel : ℕ) (times : List ℕ) (s : Sched) (c : Ptr) (before : List Ptr) (x : Ptr)
    (behind : List Ptr)
    → Rotates s c (before ++ x ∷ behind)
    → 0 < length (before ++ behind)
    → length times ≡ suc (length before)
    → (t : Sched) × (switches_at (suc fuel) times s ≡ some t)
      × (t.cur_task ≡ x)
      × ((t.threads x).state ≡ running)
unfolding switches_at
switches_at-runs fuel [] s c before x behind h two n = absurd (omega arith)
switches_at-runs fuel (ms ∷ more ∷ times) s c [] x behind h two n = absurd (omega arith)
switches_at-runs fuel (ms ∷ []) s c [] x behind h two n =
    let one = rotate fuel ms s c x behind two h in (one.0, rw one.1 refl, one.2.current, one.2.runs)
switches_at-runs fuel (ms ∷ times) s c (y ∷ before) x behind h two n =
    let one =
      rotate fuel ms s c y (before ++ x ∷ behind) (omega (arith, length-append before (x ∷ behind)))
        h in
    let next : Rotates one.0 y (before ++ x ∷ (behind ++ c ∷ [])) =
      subst (λ l. Rotates one.0 y l) (append_assoc before (x ∷ behind) (c ∷ [])) one.2 in
    let rest =
      switches_at-runs fuel times one.0 y before x (behind ++ c ∷ []) next
        (omega (arith, length-append before (behind ++ c ∷ []), length-append behind (c ∷ [])))
        (omega arith) in
    (rest.0, rw one.1 rest.1, rest.2, rest.3)
