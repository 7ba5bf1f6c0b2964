-- ===== src/Runner.antt =====
-- project_1/runner/runner.c to project_4/runner/runner.c: the function runner. The four copies
-- have the same code, but for the reads of a command, where the first copy differs; where nothing
-- else is said, project_2's is meant.
pub mod Numbers
pub mod Address
pub mod LogSink
pub mod Functions
pub mod Protocol
pub mod Server
pub mod Args
pub mod Ukstats
mod Tests
