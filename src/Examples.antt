-- ===== src/Examples.antt =====
-- The theorems at concrete inputs: a file for each part of the front end.
mod WsExamples
pub mod MessageExamples
mod QueueExamples
pub mod GameExamples
pub mod ChessExamples
pub mod PlayExamples
mod AccountExamples
mod AnalysisExamples
mod RtcExamples
mod ReviewExamples
mod PuzzleExamples
mod SandboxExamples
