-- ===== src/Sink.antt =====
-- project_1/vhost/sink.c: the log sink of the virtio backend.
pub mod Emit
mod Tests
use cs360v_cs380_projects.Prelude.{
  ℕ, zero, suc, ◌+◌, ◌-◌, ◌%◌, leb, ◌==◌, if◌then◌else◌, List, [], ◌∷◌, Bool, true, false, ◌&&◌,
  ◌||◌, take, length, get_elem?, Option, none, some, u32_mod,
}
use cs360v_cs380_projects.Prelude.Text.{newline, carriage_return, space}
use cs360v_cs380_projects.LogStore.{LogStore, logstore_open, logstore_append}

-- `struct vlog_sink`
pub record Sink : Type 0 where
  pub store : LogStore
  pub seq : ℕ

abbrev pub vlog_sink_open : Sink
vlog_sink_open = record { store = logstore_open; seq = 0 }

-- `p[i]`, within the record's bytes.
abbrev pub byte_at : List ℕ → ℕ → ℕ
byte_at p i = elim (get_elem? p i) [ none ↦ 0 | some c ↦ c ]

abbrev pub is_eol : ℕ → Bool
is_eol c = (c == newline) || (c == carriage_return)

-- `while (len && (p[len - 1] == '\n' || …)) len--;`
unfoldable pub strip_eol : List ℕ → ℕ → ℕ
strip_eol p zero = 0
strip_eol p (suc n) = let shorter = strip_eol p n in if is_eol (byte_at p n) then shorter else suc n

-- A leading decimal digit and a space give the level; INFO otherwise.
unfoldable pub append_record : Sink → List ℕ → Sink
append_record sink (a ∷ b ∷ rest) =
    if leb 48 a && leb a 57 && (b == space)
    then record {
      store = logstore_append sink.store sink.seq (a - 48) rest;
      seq = (sink.seq + 1) % u32_mod;
    }
    else record {
      store = logstore_append sink.store sink.seq 1 (a ∷ b ∷ rest);
      seq = (sink.seq + 1) % u32_mod;
    }
append_record sink p = record {
  store = logstore_append sink.store sink.seq 1 p;
  seq = (sink.seq + 1) % u32_mod;
}

unfoldable pub vlog_sink_emit : Sink → List ℕ → Sink
unfolding strip_eol append_record
vlog_sink_emit sink p =
    let len = strip_eol p (length p) in if len == 0 then sink else append_record sink (take len p)
