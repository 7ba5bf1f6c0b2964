-- ===== src/Memory/Tests.antt =====
-- Guest RAM on concrete stores.
use cs360v_cs380_projects.Prelude.{◌≡◌, refl, arith, none, some}
use cs360v_cs380_projects.Memory.{Memory, vmm_gpa_to_host, store32, load32}
use cs360v_cs380_projects.Memory.Translate.{load32-store32}

last_byte : vmm_gpa_to_host 0x10fffff 1 ≡ some 0xffffff
unfolding vmm_gpa_to_host
last_byte = refl

one_too_many : vmm_gpa_to_host 0x10fffff 2 ≡ none
unfolding vmm_gpa_to_host
one_too_many = refl

abbrev blank : Memory
blank = λ _. 0

load32-store32_example : load32 (store32 blank 8 0x31474C56) 8 ≡ 0x31474C56
load32-store32_example = load32-store32 blank 8 0x31474C56 (ground arith)
