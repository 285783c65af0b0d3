-- ===== src/Lib.antt =====
-- ChessView: the state and the logic of the web client.
--
-- The repository holds a chess platform: a Python server (backend), a React client
-- (frontend/src) and an admin client (admin-frontend). This library models the parts of the
-- client that keep state or compute: its stores, its WebSocket client, the callbacks that tie
-- them together, and its chess helpers.
--
-- The parts and the files that model them:
--
--   Common, Common/*          lists, text, integers, JavaScript's Map and Array.prototype.sort
--   Types, Types/Events       frontend/src/shared/types/index.ts: the contracts with the server
--   Game, Game/*              frontend/src/entities/game/model.ts: the game store
--   Messages, Messages/Laws   frontend/src/entities/message/model.ts: the chat store
--   Matchmaking               frontend/src/entities/matchmaking/model.ts: the queue store
--   Matchmaking/Lobby         frontend/src/features/join-matchmaking/index.ts and
--                             frontend/src/features/leave-matchmaking/index.ts
--   Ws, Ws/*                  frontend/src/shared/api/ws.ts: the WebSocket client
--   Chess, Chess/*            frontend/src/shared/lib/chess.ts: positions, FEN, UCI, validation
--   MakeMove, MakeMove/*      frontend/src/features/make-move/index.ts, `useMakeMove`
--   Realtime, Realtime/Laws   frontend/src/features/make-move/index.ts, `useGameRealtime`
--   Resign                    frontend/src/features/resign-game/model.ts
--   Chat, Chat/*              frontend/src/features/send-chat-message/model.ts
--   User, User/Laws           frontend/src/entities/user/model.ts: the auth store
--   Http, Http/Laws           frontend/src/shared/api/http.ts: requests; `fetch` is a parameter
--   LiveClock                 frontend/src/shared/hooks/useLiveClock.ts
--   Analysis, Analysis/*      frontend/src/features/analyze-position/useStockfishAnalysis.ts
--   Review, Review/*          frontend/src/features/game-review-analysis: Classifier and Classes
--                             (moveClassifier.ts), Positions, Context, Report, Saved, Faithful,
--                             Replay, Rows and Complete (gameReviewReport.ts), Insights and Counts
--                             (gameReviewInsights.ts), Pairs (reviewMovePairs.ts), Lines, Browser,
--                             Measured, Spoken, Scored, Waits and Answers (browserStockfish.ts)
--   Rtc, Rtc/Released, Flags  frontend/src/entities/rtc-peer/model.ts: the store of a video call
--   Rtc/Peer, Rtc/Candidates  frontend/src/shared/lib/webrtc.ts: the peer connection
--   Rtc/Call, Left, Signals   frontend/src/features/connect-rtc/index.ts: the call of a game
--   Puzzle, Puzzle/*          frontend/src/pages/puzzle-page/PuzzlePage.tsx, `PuzzleWorkspace`
--   Sandbox, Sandbox/*        frontend/src/pages/analysis-page/AnalysisWorkspace.tsx
--   Examples, Examples/*      the theorems at concrete inputs
--
-- A setter of a store (`setGame`, `addMessage`, ...) is a function on the record of the store's
-- state with the same name in snake_case. Game/Actions, Ws/Events, Matchmaking/Invariant,
-- MakeMove/Sending, Realtime/Laws, Chat/Receiving and User/Laws list the calls and events as
-- data, and `run` folds any sequence of them: a property of `run` is a property of every
-- interleaving. The callbacks of a feature act on a record of the stores that they touch and
-- call the models of those stores and of `WebSocketClient.send`.
--
-- The browser is modelled as far as the code reads it. A socket is the number of its
-- construction, with a ready state for each and a log of what was written to it. A timer is its
-- delay in a list, and any of them may go off at any time. `JSON.parse` and
-- `new Date(...).getTime()` are parameters, the latter with natural numbers as its values.
-- chess.js is the parameter `ChessJs`, a record of what the code calls; an exception is `none`.
-- What the middleware `persist` writes, and what reads it back, are parameters. A FEN is a list
-- of code points, other text is `String`. Numbers of the source that count or number things are
-- natural numbers; a difference that may be negative is an integer.
--
-- The engine of an analysis is its messages: Analysis/Shown lists what can happen to the hook, and
-- Review/Browser takes the events of the worker from the front of a list, where running out of
-- events is a wait that does not end. Floating point numbers are the parameter `JsNumbers`
-- (Common/Numbers), a record of the operations that the code uses. A media stream is a number
-- with tracks beside the store, so that stopping a track is seen by all who hold the stream. What
-- follows an `await` of a call is a function of its own, which may run at any later time.
--
-- All recursion is structural on lists and numbers, so no fuel is used.
--
-- Not modelled: the pages and widgets but for the puzzle trainer and the sandbox board (JSX), the
-- translations, the functions that format an analysis (analysis-utils.ts), the texts of media
-- errors and the browser's part of a peer connection, the PGN reader `parsePgnToSandbox`, the
-- methods of `http` that only build the options of a request, small helpers for routes and the
-- shop, the admin client, and the server.
pub mod Common
pub mod Sandbox
pub mod Types
pub mod Game
pub mod Ws
pub mod Messages
pub mod Matchmaking
pub mod Chess
pub mod User
pub mod Http
pub mod Analysis
pub mod MakeMove
pub mod Resign
pub mod Review
pub mod Rtc
pub mod LiveClock
pub mod Puzzle
pub mod Realtime
pub mod Chat
pub mod Examples
