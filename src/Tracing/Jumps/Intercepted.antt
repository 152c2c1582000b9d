-- ===== src/Tracing/Jumps/Intercepted.antt =====
-- tracing/utils/types.go, InterceptingEVM with its JumpTracer: an intercepted call.
use autopatch.Common.{
  ℕ, ◌<◌, ◌≡◌, ◌≢◌, refl, ◌∙◌, ap, Bool-cases, inl, inr, true, Option, some, List, [], ◌∷◌, ◌++◌,
  ◌==◌, ==_iff,
}
use autopatch.Common.GoMap.{lookup, nat_eq}
use autopatch.Storage.Bytes.{All}
use autopatch.Tracing.Jumps.Recorded.{
  jumps_of, depth_of, recording, idle, run_body, run_hooks-append, exits, call_of,
}
use autopatch.Tracing.Jumps.{
  Jump, JumpTracer, Hook, exit, call_hook, run_hooks, on_enter, on_target_contract_called,
  intercept, intercepted,
}

called :
    (js : List Jump) (a d : ℕ) (p : Option ℕ)
    → on_target_contract_called a (idle js a p d) ≡ recording js a d d
unfolding on_target_contract_called
called js a d p = let same : (a == a) ≡ true = (==_iff a a).1 refl in rw same refl

still_recording :
    (js : List Jump) (a d c : ℕ) → on_enter d a (recording js a d c) ≡ recording js a d d
unfolding on_enter
still_recording js a d c = elim (Bool-cases (a == a)) [ inl e ↦ rw e refl | inr e ↦ rw e refl ]

-- A call of the traced contract that the EVM wrapper intercepts gets the modified input, and all jumps
-- inside it are recorded, whether or not an earlier call was. The contract is among the targets with
-- that input, its address is not zero, the trace is active with the tracer at the depth of the call, no
-- call of the contract is being recorded, and what runs inside the call is deeper than the call.
pub intercepted_call_recorded :
    (targets : List (ℕ × Option (List ℕ))) (input modified : List ℕ) (js : List Jump) (a d : ℕ)
    (earlier : Option ℕ) (body : List Hook)
    → a ≢ 0
    → lookup a targets ≡ some (some modified)
    → All (λ h. d < depth_of h) body
    → ((intercept targets a input (idle js a earlier d)).0 ≡ modified)
      × (run_hooks (call_of a d body) (intercept targets a input (idle js a earlier d)).1
          ≡ idle (js ++ jumps_of body) a (some d) d)
unfolding intercept intercepted run_hooks call_hook
intercepted_call_recorded targets input modified js a d earlier body ne found deep =
    let (e, inside) = run_body body js a d d ne deep in
    rw found (
      refl,
      ap (λ (t : JumpTracer). run_hooks (body ++ exit d ∷ []) (on_enter d a t))
            (called js a d earlier)
          ∙ ap (run_hooks (body ++ exit d ∷ [])) (still_recording js a d d)
          ∙ run_hooks-append body (exit d ∷ []) (recording js a d d)
          ∙ ap (run_hooks (exit d ∷ [])) inside
          ∙ exits (js ++ jumps_of body) a d e,
    )
