-- ===== src/User/Laws.antt =====
-- What holds of the auth store, frontend/src/entities/user/model.ts, after any calls.
use chessview.Common.{
  String, ◌≡◌, Bool, true, ◌&&◌, Option, some, List, [], ◌∷◌, arith, is_some, All,
}
use chessview.Common.Text.{truthy, truthy?}
use chessview.User
use chessview.User.{
  AuthenticatedUser, UserState, Persisted, Auth, partialize, set, remove_persisted_auth,
  get_persisted_access_token, read_token,
}

pub data Call : Type 0 where
  set_auth : AuthenticatedUser → String → String → Call
  clear_auth : Call
  logout : Call
  set_tokens : String → String → Call
  set_user : AuthenticatedUser → Call
  set_hydrated : Bool → Call
  set_bootstrapping : Bool → Call

-- The server issues no empty access token.
abbrev pub IsIssued : Call → Type 0
IsIssued (set_auth user access refresh) = truthy access ≡ true
IsIssued _ = Unit

module _ (to_json : Persisted → String) where
  unfoldable pub apply : Call → Auth → Auth
  apply (set_auth account access refresh) a = User.set_auth to_json account access refresh a
  apply clear_auth a = User.clear_auth to_json a
  apply logout a = User.logout to_json a
  apply (set_tokens access refresh) a = User.set_tokens to_json access refresh a
  apply (set_user account) a = User.set_user to_json account a
  apply (set_hydrated hydrated) a = User.set_hydrated to_json hydrated a
  apply (set_bootstrapping busy) a = User.set_bootstrapping to_json busy a

  unfoldable pub run : List Call → Auth → Auth
  run [] a = a
  run (c ∷ cs) a = run cs (apply c a)

  -- The flag says whether there are a token and a user.
  abbrev pub IsTruthful : Auth → Type 0
  IsTruthful a = a.state.is_authenticated ≡ (truthy? a.state.access_token && is_some a.state.user)

  apply-IsTruthful : (c : Call) (a : Auth) → IsIssued c → IsTruthful a → IsTruthful (apply c a)
  unfolding apply User.set_auth User.clear_auth User.logout User.set_tokens User.set_user
      User.set_hydrated User.set_bootstrapping set
  apply-IsTruthful c a p h = ground arith

  -- After any calls with tokens as the server issues them, the user counts as authenticated exactly
  -- if the store has an access token and a user.
  pub run-IsTruthful :
      (cs : List Call) (a : Auth) → All IsIssued cs → IsTruthful a → IsTruthful (run cs a)
  unfolding run
  run-IsTruthful [] a p h = h
  run-IsTruthful (c ∷ cs) a p h = run-IsTruthful cs (apply c a) p.1 (apply-IsTruthful c a p.0 h)

  -- The storage was written from the state.
  abbrev pub IsStored : Auth → Type 0
  IsStored a = a.stored ≡ some (to_json (partialize a.state))

  apply-IsStored : (c : Call) (a : Auth) → IsStored (apply c a)
  unfolding apply User.set_auth User.clear_auth User.logout User.set_tokens User.set_user
      User.set_hydrated User.set_bootstrapping set
  apply-IsStored c a = ground arith

  run-IsStored : (cs : List Call) (a : Auth) → IsStored a → IsStored (run cs a)
  unfolding run
  run-IsStored [] a h = h
  run-IsStored (c ∷ cs) a h = run-IsStored cs (apply c a) (apply-IsStored c a)

module _ (to_json : Persisted → String) (from_json : String → Option (Option String)) where
  -- If the JSON of a state is not empty and reads back as its access token, then after any calls, at
  -- least one, the token for requests is that of the store: the storage brings no older one back.
  pub run-get_persisted_access_token :
      ((p : Persisted) → truthy (to_json p) ≡ true)
      → ((p : Persisted) → from_json (to_json p) ≡ some p.access_token)
      → (c : Call) (cs : List Call) (a : Auth)
      → get_persisted_access_token from_json (run to_json (c ∷ cs) a)
        ≡ (run to_json (c ∷ cs) a).state.access_token
  unfolding run get_persisted_access_token partialize
  run-get_persisted_access_token full read c cs a =
      let after = run to_json cs (apply to_json c a) in
      let stored = run-IsStored to_json cs (apply to_json c a) (apply-IsStored to_json c a) in
      ground (arith, stored, full (partialize after.state), read (partialize after.state))
