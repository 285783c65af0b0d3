-- ===== src/Examples/ChessExamples.antt =====
-- The theorems on frontend/src/shared/lib/chess.ts at concrete inputs. `toy_chess` stands for
-- chess.js: a game is a FEN and the number of moves, the board has two kings and a rook, and each
-- square has one move.
use chessview.Common.{
  ℕ, suc, String, ◌≡◌, ◌↔◌, true, false, not, Option, none, some, [], ◌∷◌, map, is_some,
}
use chessview.Common.Text.{codes}
use chessview.Types.{PlayerColor}
use chessview.Chess.{Fen, Color, PieceSymbol, Piece, BoardPiece, Move, Loaded, ChessJs}
use chessview.Chess.Editor.{
  EditorPieceCode, BoardPosition, FenMetadata, board_ranks, cells,
  fen_placement_from_board_position, fen_metadata_from_fen, editor_fen, is_white,
}
use chessview.Chess.Editor.RoundTrip.Rank.{read_placement}
use chessview.Chess.Editor.RoundTrip.{
  read_placement-fen_placement, fen_metadata_from_fen-editor_fen,
}
use chessview.Chess.Validation.{get_material_validation_error}
use chessview.Chess.Validation.Laws.{tally, IsPossible, get_material_validation_error_iff}
use chessview.Chess.Validation.Check.{AnalysisEligibility, get_analysis_eligibility}
use chessview.Chess.Validation.Check.Verdict.{get_analysis_eligibility_total}
use chessview.Chess.Validation.Check.Eligible.{IsEligible, get_analysis_eligibility_iff}

abbrev white_king : Piece
white_king = record { color = Color.w; kind = PieceSymbol.king }

abbrev on_square : String → Color → PieceSymbol → Option BoardPiece
on_square s c k = some (record { square = s; piece = record { color = c; kind = k } })

abbrev advance : String → Move
advance s = record { color = Color.w; from = s; to = "e4"; promotion = none; san = "e4" }

abbrev pub toy_chess : ChessJs
toy_chess = record {
  Game = Fen × ℕ;
  load = λ f. elim f [ [] ↦ Loaded.thrown "Invalid FEN" | c ∷ cs ↦ Loaded.loaded (c ∷ cs, 0) ];
  set_turn = λ c g. g;
  turn = λ g. Color.w;
  board = λ g.
      (on_square "e8" Color.b PieceSymbol.king ∷ none ∷ [])
      ∷ (on_square "e1" Color.w PieceSymbol.king ∷ on_square "h1" Color.w PieceSymbol.rook ∷ [])
      ∷ [];
  moves = λ g s. advance s ∷ [];
  move = λ g m. some (advance m.from, (g.0, suc g.1));
  fen = λ g. g.0;
  history_length = λ g. g.1;
  get = λ g s. some white_king;
  is_check = λ g. false;
  find_king = λ g c. "e1" ∷ [];
  attackers = none;
}

abbrev position : BoardPosition
position =
    ("e1", EditorPieceCode.w_k)
    ∷ ("h1", EditorPieceCode.w_r)
    ∷ ("e8", EditorPieceCode.b_k)
    ∷ ("a7", EditorPieceCode.b_p)
    ∷ []

abbrev metadata : FenMetadata
metadata = record {
  turn = PlayerColor.black;
  white_kingside = true;
  white_queenside = false;
  black_kingside = false;
  black_queenside = false;
}

abbrev fen : Fen
fen = codes "4k3/8/8/8/8/8/8/4K2R w K - 0 1"

read_placement-fen_placement_example :
    read_placement (fen_placement_from_board_position position) ≡ map (cells position) board_ranks
read_placement-fen_placement_example = read_placement-fen_placement position

fen_metadata_from_fen-editor_fen_example :
    fen_metadata_from_fen (editor_fen position metadata) ≡ metadata
fen_metadata_from_fen-editor_fen_example = fen_metadata_from_fen-editor_fen position metadata

get_material_validation_error_iff_example :
    (get_material_validation_error position ≡ none)
    ↔ (IsPossible (tally is_white position) × IsPossible (tally (λ p. not (is_white p)) position))
get_material_validation_error_iff_example = get_material_validation_error_iff position

get_analysis_eligibility_total_example :
    (e : AnalysisEligibility) × (get_analysis_eligibility toy_chess fen ≡ some e)
    × (is_some e.reason ≡ not e.ok)
get_analysis_eligibility_total_example = get_analysis_eligibility_total toy_chess fen

get_analysis_eligibility_iff_example :
    (get_analysis_eligibility toy_chess fen ≡ some (record { ok = true; reason = none }))
    ↔ IsEligible toy_chess fen
get_analysis_eligibility_iff_example = get_analysis_eligibility_iff toy_chess fen

abbrev promotes : Move
promotes = record { color = Color.w; from = "e7"; to = "e8"; promotion = some "q"; san = "e8=Q" }
