-- ===== src/LogStore/Tests.antt =====
-- The log store on concrete calls.
use cs360v_cs380_projects.Prelude.{◌≡◌, refl, ◌∷◌, [], ◌++◌, List, codes, arith, map}
use cs360v_cs380_projects.Prelude.Text.{decimal}
use cs360v_cs380_projects.LogStore.{logstore_open, logstore_append, append_all, Entry, entry}
use cs360v_cs380_projects.LogStore.Records.{read_log, reading_of, read_log-append_all}

one_record :
    (logstore_append logstore_open 42 2 (codes "hi")).disk ≡ codes "[42] WARN hi" ++ 10 ∷ []
unfolding logstore_append decimal
one_record = refl

abbrev two_producers : List Entry
two_producers = entry 0 3 (codes "boot failed") ∷ entry 0 9 [] ∷ []

read_log-append_all_example :
    (read_log (append_all logstore_open two_producers).disk ≡ map reading_of two_producers)
    × ((append_all logstore_open two_producers).pending ≡ [])
read_log-append_all_example = read_log-append_all two_producers (ground arith)
