-- ===== src/Game/Status.antt =====
-- Statuses and reasons of a finished game, frontend/src/entities/game/model.ts.
use chessview.Common.{◌≡◌, ◌≢◌, refl, Bool, true, false, arith}
use chessview.Types.{GameStatus, TerminationReason}

-- `statusFromGameOver`: the `default` case returns the reason itself, which is then a status.
unfoldable pub status_from_game_over : TerminationReason → GameStatus
status_from_game_over TerminationReason.resignation = GameStatus.resigned
status_from_game_over TerminationReason.identity_verification_failed = GameStatus.resigned
status_from_game_over TerminationReason.draw_agreement = GameStatus.draw
status_from_game_over TerminationReason.draw = GameStatus.draw
status_from_game_over TerminationReason.repetition = GameStatus.draw
status_from_game_over TerminationReason.clock_timeout = GameStatus.timeout
status_from_game_over TerminationReason.disconnect_timeout = GameStatus.timeout
status_from_game_over TerminationReason.auto_abort = GameStatus.aborted
status_from_game_over TerminationReason.checkmate = GameStatus.checkmate
status_from_game_over TerminationReason.stalemate = GameStatus.stalemate

-- `reasonFromStatus`: "active" falls to the `default` case.
unfoldable pub reason_from_status : GameStatus → TerminationReason
reason_from_status GameStatus.checkmate = TerminationReason.checkmate
reason_from_status GameStatus.stalemate = TerminationReason.stalemate
reason_from_status GameStatus.resigned = TerminationReason.resignation
reason_from_status GameStatus.draw = TerminationReason.draw_agreement
reason_from_status GameStatus.timeout = TerminationReason.clock_timeout
reason_from_status GameStatus.aborted = TerminationReason.auto_abort
reason_from_status GameStatus.active = TerminationReason.draw

-- `status === "active"`
abbrev pub is_active : GameStatus → Bool
is_active GameStatus.active = true
is_active _ = false

-- The status of the reason that stands for a status is that status, for every status but "active".
pub status_from_game_over-reason_from_status :
    (s : GameStatus) → s ≢ GameStatus.active → status_from_game_over (reason_from_status s) ≡ s
unfolding status_from_game_over reason_from_status
status_from_game_over-reason_from_status GameStatus.active h = absurd (h refl)
status_from_game_over-reason_from_status _ h = refl

pub status_from_game_over-ne-active :
    (r : TerminationReason) → is_active (status_from_game_over r) ≡ false
unfolding status_from_game_over
status_from_game_over-ne-active r = ground arith
