-- ===== src/Tracing/Jumps.antt =====
-- tracing/utils/types.go, JumpTracer and InterceptingEVM: the hooks that the EVM calls. An address is
-- the number that its 20 bytes stand for; `none` is the depth -1; a stack starts with its top.
pub mod Recorded
pub mod Intercepted
use autopatch.Common.{
  ℕ, zero, ◌+◌, ◌%◌, ◌^◌, Bool, true, false, not, ◌&&◌, Option, none, some, List, [], ◌∷◌, ◌++◌,
  length, get_or, ltb, leb, ◌==◌, if◌then◌else◌,
}
use autopatch.Common.GoMap.{lookup, nat_eq}

pub record Jump : Type 0 where
  pub contract_address : ℕ
  pub jump_from : ℕ
  pub jump_dest : ℕ

pub record JumpTracer : Type 0 where
  pub jumps : List Jump
  pub is_trace_active : Bool
  pub target_contract : ℕ
  pub is_recording_active : Bool
  pub target_call_depth : Option ℕ
  pub current_depth : ℕ

unfoldable pub new_jump_tracer : JumpTracer
new_jump_tracer = record {
  jumps = [];
  is_trace_active = false;
  target_contract = 0;
  is_recording_active = false;
  target_call_depth = none;
  current_depth = 0;
}

unfoldable pub start_trace : JumpTracer → JumpTracer
start_trace t = record t { is_trace_active = true; jumps = [] }

unfoldable pub stop_trace : JumpTracer → List Jump × JumpTracer
stop_trace t = (t.jumps, record t { is_trace_active = false })

unfoldable pub set_target_contract : ℕ → JumpTracer → JumpTracer
set_target_contract addr t = record t {
  target_contract = addr;
  target_call_depth = none;
  is_recording_active = false;
}

unfoldable pub on_target_contract_called : ℕ → JumpTracer → JumpTracer
on_target_contract_called addr t =
    if addr == t.target_contract && not t.is_recording_active
    then record t { is_recording_active = true; target_call_depth = some t.current_depth }
    else t

-- dest.Uint64() of an element from the top; 0 below the bottom.
abbrev pub safe_stack_back : List ℕ → ℕ → ℕ
safe_stack_back stack n = get_or stack n 0

abbrev pub is_unset : Option ℕ → Bool
is_unset none = true
is_unset (some d) = false

unfoldable pub on_enter : ℕ → ℕ → JumpTracer → JumpTracer
on_enter depth to t =
    let u = record t { current_depth = depth } in
    if to == u.target_contract && not u.is_recording_active && is_unset u.target_call_depth
    then record u { is_recording_active = true; target_call_depth = some depth }
    else u

-- depth <= t.targetCallDepth.
abbrev pub reaches : ℕ → Option ℕ → Bool
reaches depth none = false
reaches depth (some d) = leb depth d

unfoldable pub on_exit : ℕ → JumpTracer → JumpTracer
on_exit depth t =
    let u =
      if t.is_recording_active && reaches depth t.target_call_depth
      then record t { is_recording_active = false }
      else t in
    record u { current_depth = depth }

pub data Opcode : Type 0 where
  jump jumpi other_opcode : Opcode

-- The arguments of the hook that it reads.
pub record Instruction : Type 0 where
  pub pc : ℕ
  pub op : Opcode
  pub address : ℕ
  pub stack : List ℕ

abbrev pub jump_to : Instruction → Jump
jump_to i = record {
  contract_address = i.address;
  jump_from = i.pc;
  jump_dest = safe_stack_back i.stack 0 % 2 ^ 64;
}

-- The jump that an instruction takes, as the switch over the opcode sees it.
unfoldable pub jump_of : Opcode → Instruction → List Jump
jump_of jump i = if ltb 0 (length i.stack) then jump_to i ∷ [] else []
jump_of jumpi i =
    if leb 2 (length i.stack) && not (safe_stack_back i.stack 1 == 0) then jump_to i ∷ [] else []
jump_of other_opcode i = []

abbrev pub above : ℕ → Option ℕ → Bool
above depth none = false
above depth (some d) = ltb depth d

unfoldable pub on_opcode : ℕ → Instruction → JumpTracer → JumpTracer
unfolding jump_of
on_opcode depth i t =
    if not t.is_trace_active
    then t
    else if not (t.target_contract == 0) && not t.is_recording_active
    then t
    else if above depth t.target_call_depth
    then t
    else record t { jumps = t.jumps ++ jump_of i.op i }

-- The calls of the EVM.
pub data Hook : Type 0 where
  enter : ℕ → ℕ → Hook  -- the depth and the callee
  exit : ℕ → Hook
  opcode : ℕ → Instruction → Hook

unfoldable pub call_hook : Hook → JumpTracer → JumpTracer
unfolding on_enter on_exit on_opcode
call_hook (enter depth to) t = on_enter depth to t
call_hook (exit depth) t = on_exit depth t
call_hook (opcode depth i) t = on_opcode depth i t

unfoldable pub run_hooks : List Hook → JumpTracer → JumpTracer
run_hooks [] t = t
run_hooks (h ∷ hs) t = run_hooks hs (call_hook h t)

unfoldable pub intercepted :
    Option (Option (List ℕ)) → ℕ → List ℕ → JumpTracer → List ℕ × JumpTracer
unfolding on_target_contract_called
intercepted none addr input t = (input, t)
intercepted (some none) addr input t = (input, on_target_contract_called addr t)
intercepted (some (some modified)) addr input t = (modified, on_target_contract_called addr t)

-- InterceptingEVM.Call, StaticCall and DelegateCall before the call of the EVM: the input and the
-- tracer. A nil slice among the targets keeps the input.
unfoldable pub intercept :
    List (ℕ × Option (List ℕ)) → ℕ → List ℕ → JumpTracer → List ℕ × JumpTracer
unfolding intercepted
intercept targets addr input t = intercepted (lookup addr targets) addr input t
