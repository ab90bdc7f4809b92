-- ===== src/Tests/EdgeOther.antt =====
-- The edge's session table, names, fetches and command line.
use native.Mathlib.Nat.{ℕ_set}
use crowdsensing.Edge.SessionManager.Abstract.{Merge, no_call, first_calls, second_calls, run-Merge}
use crowdsensing.Common.{
  Fault, no_element, ℕ, ◌<◌, ◌≡◌, ◌≢◌, ◌⊎◌, List, [], ◌∷◌, ◌++◌, map, some, ok, err, codes, arith,
  Bytes, Option,
}
use crowdsensing.Reference.{lib, boost, boost-IsBoost}
use crowdsensing.Edge.SessionManager.Refinement.{
  Call, adds, appends, erases, view, run, spec_run, view-run,
}
use crowdsensing.Edge.Names.{decode_uri, convert_interest_name, extract_targets, extract_locname}
use crowdsensing.Edge.Names.Query.{query_name, worker_name}
use crowdsensing.Edge.Names.RoundTrip.{
  convert-query_name, extract_targets-query_name, extract_locname-worker_name, convert_one_key,
  decode_uri-encode,
}
use crowdsensing.Edge.Producer.State.{State}
use crowdsensing.Edge.Producer.Requests.{session_timer}
use crowdsensing.Reference.OpenCv.{cv}
use crowdsensing.Edge.Dnn.{Dnn, dnn}
use crowdsensing.Edge.HashTable.{find}
use crowdsensing.Edge.Main.{returns, runs, catches, main, main-run}
use crowdsensing.Edge.Main as EdgeMain
use crowdsensing.Tests.Setup.{query, query-IsQuery}

abbrev calls : List (Call ℕ)
calls =
    adds 4 100 (session_timer 4)
    ∷ appends 4 (codes "x")
    ∷ adds 4 200 (session_timer 4)
    ∷ appends 5 (codes "y")
    ∷ erases 5
    ∷ []

view-run_example : view (run [] calls) ≡ spec_run (view {Data = ℕ} []) calls
view-run_example = view-run [] calls

-- Two threads, the first on session 4 and the second on session 5.
abbrev first_thread : List (Call ℕ)
first_thread = adds 4 100 (session_timer 4) ∷ appends 4 (codes "x") ∷ []

abbrev second_thread : List (Call ℕ)
second_thread = adds 5 200 (session_timer 5) ∷ erases 5 ∷ []

abbrev merged : List (Call ℕ)
merged =
    adds 5 200 (session_timer 5)
    ∷ adds 4 100 (session_timer 4)
    ∷ erases 5
    ∷ appends 4 (codes "x")
    ∷ []

threads-Merge : Merge first_thread second_thread merged
threads-Merge = second_calls _ (first_calls _ (second_calls _ (first_calls _ no_call)))

run-Merge_example :
    find 9 (run {Data = ℕ} [] merged) ≡ find 9 (run [] (first_thread ++ second_thread))
run-Merge_example = run-Merge ℕ_set threads-Merge (omega arith) [] 9

convert-query_name_example :
    convert_interest_name boost (query_name boost query) (codes "old" ∷ [])
    ≡ ok (codes "old" ∷ map (worker_name boost query) (codes "30" ∷ codes "31" ∷ []))
convert-query_name_example =
    convert-query_name boost boost-IsBoost query query-IsQuery (codes "old" ∷ [])

extract_targets-query_name_example :
    extract_targets boost (query_name boost query) ≡ ok (codes "cat" ∷ codes "dog" ∷ [])
extract_targets-query_name_example =
    extract_targets-query_name boost boost-IsBoost query query-IsQuery

extract_locname-worker_name_example :
    extract_locname boost (worker_name boost query (codes "31") ++ (b'/' ∷ codes "5"))
    ≡ ok (codes "31" ∷ [])
extract_locname-worker_name_example =
    extract_locname-worker_name boost boost-IsBoost query (codes "31") (codes "5") query-IsQuery
      (omega arith) (omega arith)

convert_one_key_example : convert_interest_name boost (codes "/edge/od/#a:[30]") [] ≡ err no_element
convert_one_key_example =
    convert_one_key boost boost-IsBoost (codes "/edge") (codes "od") (codes "#a:[30]") []
      (omega arith) (omega arith) (omega arith)

decode_uri-encode_example : decode_uri boost (codes "/od/%23a%3A%5B30%5D") ≡ codes "/od/#a:[30]"
decode_uri-encode_example =
    decode_uri-encode boost boost-IsBoost (codes "/od/#a:[30]") (omega arith)

-- It sees a cat in everything.
abbrev detector : Bytes → List Bytes
detector bytes = codes "cat" ∷ []

abbrev edge_option : Option ℕ
edge_option = some b'e'

abbrev cloud_option : Option ℕ
cloud_option = some b'c'

abbrev names : List Bytes
names = codes "person" ∷ codes "cat" ∷ []

main-run_example :
    ((2 < 2) × (main cv lib 2 edge_option names ≡ returns 1))
    ⊎ ((1 < 2)
        × (edge_option ≢ cloud_option)
        × (edge_option ≢ edge_option)
        × (main cv lib 2 edge_option names ≡ returns 2))
    ⊎ ((f : EdgeMain.Handler) × (1 < 2)
        × (f ≢ EdgeMain.no_handler)
        × (edge_option ≡ EdgeMain.option_of cv lib f)
        × (((s : State lib) × (d : Dnn cv) × (dnn cv [] names ≡ ok d)
              × (main cv lib 2 edge_option names ≡ runs s d)
              × (EdgeMain.run {lib = lib} s ≡ f))
            ⊎ ((e : Fault) × (dnn cv [] names ≡ err e)
                × (main cv lib 2 edge_option names ≡ catches e))))
main-run_example = main-run cv lib 2 edge_option names
