-- ===== src/Tracing/Jumps/Recorded.antt =====
-- tracing/utils/types.go, JumpTracer: which jumps a trace records.
use autopatch.Common.{
  ℕ, ◌<◌, ◌≡◌, ◌≢◌, refl, ◌∙◌, ap, true, false, inl, inr, Option, none, some, List, [], ◌∷◌, ◌++◌,
  arith, ltb, leb, ◌==◌, Bool-cases, ==_iff,
}
use mathlib.Core.List.{append_assoc, append-nil}
use autopatch.Storage.Bytes.{All}
use autopatch.Tracing.Jumps.{
  Jump, JumpTracer, Hook, enter, exit, opcode, jump_of, call_hook, run_hooks, on_enter, on_exit,
  on_opcode, start_trace, stop_trace, set_target_contract,
}

-- The jumps of the instructions among the hooks.
abbrev pub jumps_of : List Hook → List Jump
jumps_of [] = []
jumps_of (opcode depth i ∷ hs) = jump_of i.op i ++ jumps_of hs
jumps_of (h ∷ hs) = jumps_of hs

abbrev pub depth_of : Hook → ℕ
depth_of (enter depth to) = depth
depth_of (exit depth) = depth
depth_of (opcode depth i) = depth

-- No call of the contract.
abbrev pub CallsOther : ℕ → Hook → Type 0
CallsOther a (enter depth to) = to ≢ a
CallsOther a (exit depth) = Unit
CallsOther a (opcode depth i) = Unit

-- An active trace of the contract a: while its call is recorded, and otherwise.
abbrev pub recording : List Jump → ℕ → ℕ → ℕ → JumpTracer
recording js a d c = record {
  jumps = js;
  is_trace_active = true;
  target_contract = a;
  is_recording_active = true;
  target_call_depth = some d;
  current_depth = c;
}

abbrev pub idle : List Jump → ℕ → Option ℕ → ℕ → JumpTracer
idle js a d c = record {
  jumps = js;
  is_trace_active = true;
  target_contract = a;
  is_recording_active = false;
  target_call_depth = d;
  current_depth = c;
}

pub run_hooks-append :
    (hs gs : List Hook) (t : JumpTracer) → run_hooks (hs ++ gs) t ≡ run_hooks gs (run_hooks hs t)
unfolding run_hooks
run_hooks-append [] gs t = refl
run_hooks-append (h ∷ hs) gs t = run_hooks-append hs gs (call_hook h t)

differs : (a b : ℕ) → a ≢ b → (a == b) ≡ false
differs a b h = elim (Bool-cases (a == b)) [ inl e ↦ absurd (h ((==_iff a b).0 e)) | inr e ↦ e ]

-- The body of the call, in which every hook is deeper than the call.
body_hook :
    (h : Hook) (js : List Jump) (a d c : ℕ)
    → a ≢ 0
    → d < depth_of h
    → (e : ℕ) × (call_hook h (recording js a d c) ≡ recording (js ++ jumps_of (h ∷ [])) a d e)
unfolding call_hook on_enter on_exit on_opcode
body_hook (enter depth to) js a d c ne l = (
  depth,
  elim (Bool-cases (to == a)) [ inl e ↦ rw (e, append-nil) refl | inr e ↦ rw (e, append-nil) refl ],
)
body_hook (exit depth) js a d c ne l =
    let deeper : leb depth d ≡ false = ground (arith, l) in (depth, rw (deeper, append-nil) refl)
body_hook (opcode depth i) js a d c ne l =
    let deeper : ltb depth d ≡ false = ground (arith, l) in
    (c, rw (differs a 0 ne, deeper, append-nil) refl)

idle_hook :
    (h : Hook) (js : List Jump) (a c : ℕ)
    → a ≢ 0
    → CallsOther a h
    → (e : ℕ) × (call_hook h (idle js a none c) ≡ idle js a none e)
unfolding call_hook on_enter on_exit on_opcode
idle_hook (enter depth to) js a c ne other = (depth, rw (differs to a other) refl)
idle_hook (exit depth) js a c ne other = (depth, refl)
idle_hook (opcode depth i) js a c ne other = (c, rw (differs a 0 ne) refl)

past_hook :
    (h : Hook) (js : List Jump) (a d c : ℕ)
    → a ≢ 0
    → (e : ℕ) × (call_hook h (idle js a (some d) c) ≡ idle js a (some d) e)
unfolding call_hook on_enter on_exit on_opcode
past_hook (enter depth to) js a d c ne =
    (depth, elim (Bool-cases (to == a)) [ inl e ↦ rw e refl | inr e ↦ rw e refl ])
past_hook (exit depth) js a d c ne = (depth, refl)
past_hook (opcode depth i) js a d c ne = (c, rw (differs a 0 ne) refl)

jumps_of-cons : (h : Hook) (hs : List Hook) → jumps_of (h ∷ []) ++ jumps_of hs ≡ jumps_of (h ∷ hs)
jumps_of-cons (enter depth to) hs = refl
jumps_of-cons (exit depth) hs = refl
jumps_of-cons (opcode depth i) hs = rw append-nil refl

pub run_body :
    (hs : List Hook) (js : List Jump) (a d c : ℕ)
    → a ≢ 0
    → All (λ h. d < depth_of h) hs
    → (e : ℕ) × (run_hooks hs (recording js a d c) ≡ recording (js ++ jumps_of hs) a d e)
unfolding run_hooks
run_body [] js a d c ne deep = (c, rw append-nil refl)
run_body (h ∷ hs) js a d c ne deep =
    let (c₁, one) = body_hook h js a d c ne deep.0 in
    let (e, more) = run_body hs (js ++ jumps_of (h ∷ [])) a d c₁ ne deep.1 in
    let joined =
      append_assoc js (jumps_of (h ∷ [])) (jumps_of hs) ∙ ap (◌++◌ js) (jumps_of-cons h hs) in
    (e, ap (run_hooks hs) one ∙ more ∙ ap (λ (k : List Jump). recording k a d e) joined)

run_idle :
    (hs : List Hook) (js : List Jump) (a c : ℕ)
    → a ≢ 0
    → All (CallsOther a) hs
    → (e : ℕ) × (run_hooks hs (idle js a none c) ≡ idle js a none e)
unfolding run_hooks
run_idle [] js a c ne other = (c, refl)
run_idle (h ∷ hs) js a c ne other =
    let (c₁, one) = idle_hook h js a c ne other.0 in
    let (e, more) = run_idle hs js a c₁ ne other.1 in (e, ap (run_hooks hs) one ∙ more)

run_past :
    (hs : List Hook) (js : List Jump) (a d c : ℕ)
    → a ≢ 0
    → (e : ℕ) × (run_hooks hs (idle js a (some d) c) ≡ idle js a (some d) e)
unfolding run_hooks
run_past [] js a d c ne = (c, refl)
run_past (h ∷ hs) js a d c ne =
    let (c₁, one) = past_hook h js a d c ne in
    let (e, more) = run_past hs js a d c₁ ne in (e, ap (run_hooks hs) one ∙ more)

enters : (js : List Jump) (a d c : ℕ) → on_enter d a (idle js a none c) ≡ recording js a d d
unfolding on_enter
enters js a d c = let same : (a == a) ≡ true = (==_iff a a).1 refl in rw same refl

pub exits : (js : List Jump) (a d c : ℕ) → on_exit d (recording js a d c) ≡ idle js a (some d) d
unfolding on_exit
exits js a d c = let back : leb d d ≡ true = ground arith in rw back refl

-- A whole call of the contract: its start, what runs inside it, and its end.
abbrev pub call_of : ℕ → ℕ → List Hook → List Hook
call_of a d body = enter d a ∷ (body ++ exit d ∷ [])

run_call :
    (body : List Hook) (js : List Jump) (a d c : ℕ)
    → a ≢ 0
    → All (λ h. d < depth_of h) body
    → run_hooks (call_of a d body) (idle js a none c) ≡ idle (js ++ jumps_of body) a (some d) d
unfolding run_hooks call_hook
run_call body js a d c ne deep =
    let (e, inside) = run_body body js a d d ne deep in
    ap (run_hooks (body ++ exit d ∷ [])) (enters js a d c)
    ∙ run_hooks-append body (exit d ∷ []) (recording js a d d)
    ∙ ap (run_hooks (exit d ∷ [])) inside
    ∙ exits (js ++ jumps_of body) a d e

-- A trace that is started for a contract records the jumps inside the first call of it that the EVM
-- enters, all of them in order, and nothing else: not what runs before the call or after it, a second
-- call of the contract included. The contract's address is not zero, and what runs inside the call is
-- deeper than the call.
pub trace_records_first_call :
    (t : JumpTracer) (a d : ℕ) (before body after : List Hook)
    → a ≢ 0
    → All (CallsOther a) before
    → All (λ h. d < depth_of h) body
    → (stop_trace (
        run_hooks
          (before ++ (call_of a d body ++ after))
          (start_trace (set_target_contract a t)))).0
      ≡ jumps_of body
unfolding start_trace set_target_contract stop_trace
trace_records_first_call t a d before body after ne other deep =
    let (c, waited) = run_idle before [] a t.current_depth ne other in
    let (e, later) = run_past after (jumps_of body) a d d ne in
    ap (λ (u : JumpTracer). u.jumps)
      (run_hooks-append before (call_of a d body ++ after) (idle [] a none t.current_depth)
        ∙ ap (run_hooks (call_of a d body ++ after)) waited
        ∙ run_hooks-append (call_of a d body) after (idle [] a none c)
        ∙ ap (run_hooks after) (run_call body [] a d c ne deep)
        ∙ later)
