-- ===== src/Session/Tests.antt =====
-- Runs of the session store of internal/server/bus.go.
use im_system.Common.{
  ℕ, ◌≡◌, refl, List, [], ◌∷◌, some, none, Text, arith, lookup, text_eq, without, insert, retain,
}
use im_system.Session.{create, get_username, update_username, cleanup, new_memory_session_store}
use im_system.Session.Refinement.{
  Op, creates, looks_up, renames, sweeps, run, run_refines_ideal, ideal_run, empty_ideal,
}

abbrev tok : Text
tok = b't' ∷ []

abbrev ann : Text
ann = b'a' ∷ []

abbrev bea : Text
bea = b'b' ∷ []

abbrev trace : List (ℕ × Op)
trace =
    (0, creates (some tok) ann 10)
    ∷ (5, renames tok bea)
    ∷ (10, looks_up tok)
    ∷ (11, looks_up tok)
    ∷ (11, sweeps)
    ∷ (12, looks_up tok)
    ∷ []

trace_answers :
    run new_memory_session_store trace ≡ some tok ∷ none ∷ some bea ∷ none ∷ none ∷ none ∷ []
unfolding run create get_username update_username cleanup new_memory_session_store lookup insert
    without retain text_eq
trace_answers = refl

run_refines_ideal_example : run new_memory_session_store trace ≡ ideal_run empty_ideal trace
run_refines_ideal_example = run_refines_ideal 0 trace (omega arith)
