-- ===== src/Runner/Ukstats.antt =====
-- project_3/app/libukstats/ukstats.c: the statistics of the unikernel, which replace the runner's
-- hooks. The clock and the allocator of Unikraft are given.
use cs360v_cs380_projects.Prelude.{
  ℕ, ◌+◌, ◌-◌, ◌/◌, ◌%◌, ◌^◌, ◌≤◌, ◌≡◌, refl, ◌∙◌, ap, List, [], ◌∷◌, ◌++◌, Option, none, some,
  codes, length, length-append, take, take_short, arith, u64_mod,
}
use cs360v_cs380_projects.Prelude.Text.{newline, decimal, length-decimal}
use cs360v_cs380_projects.Runner.Numbers.{signed_decimal}
use cs360v_cs380_projects.Runner.Numbers.Printed.{length-signed_decimal}
use cs360v_cs380_projects.Prelude.Text.{c_string}
use cs360v_cs380_projects.Sink.{strip_eol}
use cs360v_cs380_projects.Runner.Functions.{snprintf, out_size}
use cs360v_cs380_projects.Runner.Protocol.{log_debug, handle_line, stripped, command}

-- `boot_ns` and `invocations`.
pub record Ukstats : Type 0 where
  pub boot_ns : ℕ
  pub invocations : ℕ

-- At boot, with what is printed.
unfoldable pub ukstats_boot : ℕ → Ukstats × List ℕ
ukstats_boot clock = (
  record { boot_ns = clock; invocations = 0 },
  codes "1 unikernel booted in " ++ (decimal (clock / 1000000) ++ codes " ms\n"),
)

unfoldable pub runner_on_invoke : Ukstats → Ukstats
runner_on_invoke u = record u { invocations = (u.invocations + 1) % u64_mod }

-- `%ld` of the free memory, which is -1 without an allocator.
abbrev pub freemem : Option ℕ → List ℕ
freemem none = signed_decimal (2 ^ 64 - 1)
freemem (some bytes) = signed_decimal bytes

-- The line, for the allocator's free memory and the clock.
abbrev pub info_line : Option ℕ → ℕ → Ukstats → List ℕ
info_line avail clock u =
    codes "platform=unikraft freemem="
    ++ (freemem avail
        ++ (codes " uptime_ms="
            ++ (decimal (clock / 1000000)
                ++ (codes " boot_ms="
                    ++ (decimal (u.boot_ns / 1000000)
                        ++ (codes " invocations=" ++ decimal u.invocations))))))

unfoldable pub runner_platform_info : Option ℕ → ℕ → Ukstats → Option (List ℕ)
runner_platform_info avail clock u = some (snprintf out_size (info_line avail clock u))

-- The statistics after the runner has told of some functions.
unfoldable pub after_invocations : Ukstats → List (List ℕ) → Ukstats
unfolding runner_on_invoke
after_invocations u [] = u
after_invocations u (name ∷ names) = runner_on_invoke (after_invocations u names)

after_invocations-length :
    (clock : ℕ) (names : List (List ℕ))
    → after_invocations (ukstats_boot clock).0 names
      ≡ record { boot_ns = clock; invocations = length names % 2 ^ 64 }
unfolding after_invocations ukstats_boot
after_invocations-length clock [] = refl
after_invocations-length clock (name ∷ names) =
    ap runner_on_invoke (after_invocations-length clock names)
    ∙ (unfold runner_on_invoke in
        ap (λ n. record { boot_ns = clock; invocations = n }) (omega arith))

length-freemem : (avail : Option ℕ) → length (freemem avail) ≤ 21
length-freemem none = length-signed_decimal (2 ^ 64 - 1)
length-freemem (some bytes) = length-signed_decimal bytes

length-info_line :
    (avail : Option ℕ) (clock : ℕ) (u : Ukstats) → length (info_line avail clock u) ≤ 255
length-info_line avail clock u = omega (
  arith,
  length-freemem avail,
  length-decimal (clock / 1000000),
  length-decimal (u.boot_ns / 1000000),
  length-decimal u.invocations,
  length-append (freemem avail) (
      codes " uptime_ms="
      ++ (decimal (clock / 1000000)
          ++ (codes " boot_ms="
              ++ (decimal (u.boot_ns / 1000000)
                  ++ (codes " invocations=" ++ decimal u.invocations))))),
  length-append (decimal (clock / 1000000)) (
      codes " boot_ms="
      ++ (decimal (u.boot_ns / 1000000) ++ (codes " invocations=" ++ decimal u.invocations))),
  length-append (decimal (u.boot_ns / 1000000)) (codes " invocations=" ++ decimal u.invocations),
)

info_whole :
    (avail : Option ℕ) (clock : ℕ) (u : Ukstats)
    → runner_platform_info avail clock u ≡ some (info_line avail clock u)
unfolding runner_platform_info
info_whole avail clock u =
    ap some (take_short 255 (info_line avail clock u) (length-info_line avail clock u))

-- The reply to `INFO`, if the platform's text is short.
command_info :
    (overflow : ℕ → ℕ → ℕ) (text : List ℕ)
    → length text ≤ 255
    → handle_line overflow (some text) (codes "INFO\n")
      ≡ some (record {
        reply = codes "OK " ++ (text ++ newline ∷ []);
        logs = (log_debug, codes "info") ∷ [];
        invoked = none;
      })
unfolding handle_line command stripped strip_eol c_string
command_info overflow text h =
    ap
      (λ t. some (record {
        reply = take 511 (codes "OK " ++ (t ++ newline ∷ []));
        logs = (log_debug, codes "info") ∷ [];
        invoked = none;
      }))
      (take_short 255 text h)
    ∙ ap
        (λ reply.
          some (record { reply = reply; logs = (log_debug, codes "info") ∷ []; invoked = none }))
        (take_short 511 (codes "OK " ++ (text ++ newline ∷ []))
          (omega (arith, h, length-append text (newline ∷ []))))

-- In the unikernel, `INFO` is answered with the whole line of statistics: the free memory or -1,
-- the time since boot and at boot in milliseconds, and as invocations, in 64 bits, how many
-- functions the runner has told of since boot.
pub handle_line-after_invocations :
    (overflow : ℕ → ℕ → ℕ) (avail : Option ℕ) (boot clock : ℕ) (names : List (List ℕ))
    → handle_line overflow
        (runner_platform_info avail clock (after_invocations (ukstats_boot boot).0 names))
        (codes "INFO\n")
      ≡ some (record {
        reply =
            codes "OK "
            ++ (info_line avail clock
                  (record { boot_ns = boot; invocations = length names % 2 ^ 64 })
                ++ newline ∷ []);
        logs = (log_debug, codes "info") ∷ [];
        invoked = none;
      })
handle_line-after_invocations overflow avail boot clock names =
    let u : Ukstats = record { boot_ns = boot; invocations = length names % 2 ^ 64 } in
    ap (λ u. handle_line overflow (runner_platform_info avail clock u) (codes "INFO\n"))
      (after_invocations-length boot names)
    ∙ ap (λ i. handle_line overflow i (codes "INFO\n")) (info_whole avail clock u)
    ∙ command_info overflow (info_line avail clock u) (length-info_line avail clock u)
