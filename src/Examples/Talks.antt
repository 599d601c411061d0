-- ===== src/Examples/Talks.antt =====
-- Messages between the users 1 and 2, whose uuids have the letters a and b as their texts.
use rts_vibe_code.Prelude.{
  ℕ, zero, suc, ◌+◌, ◌*◌, ◌≤◌, ◌≡◌, inr, refl, true, false, none, some, [], ◌∷◌, arith, contains,
  nat_key,
}
use rts_vibe_code.GoMap.{lookup}
use rts_vibe_code.Lobby.{Player}
use rts_vibe_code.Chat.{
  Text, world, colon, valid, validate_body, parse_scope, world_scope, dm_scope,
}
use rts_vibe_code.Chat.Scopes.{parse-scopes, dm_scope_same}
use rts_vibe_code.Chat.Bodies.{validate_body-valid}
use rts_vibe_code.Chat.Throttle.{token, allow}
use rts_vibe_code.Chat.Throttle.Rate.{attempts, attempts_bound, after, allow_waited}
use rts_vibe_code.Chat.Service.{Ports, Service, SendInput, send}
use rts_vibe_code.Chat.Service.Sending.{Outcome, send-Outcome}
use rts_vibe_code.Gateway.{new_token_bucket}
use rts_vibe_code.Gateway.Window.{allowed, renewals, allowed_bound}

-- As many letters a as the number says.
abbrev letters : ℕ → Text
letters zero = []
letters (suc n) = 97 ∷ letters n

letters_clear : (id : ℕ) → contains colon (letters id) ≡ false
letters_clear zero = refl
letters_clear (suc n) = letters_clear n

letters_known : (i j : ℕ) → letters i ≡ letters j → i ≡ j
letters_known zero zero e = refl
letters_known zero (suc j) e = absurd (cc (e))
letters_known (suc i) zero e = absurd (cc (e))
letters_known (suc i) (suc j) e =
    let tails : letters i ≡ letters j = cc (e) in
    let same : i ≡ j = letters_known i j tails in omega (arith, same)

parse-scopes_example : parse_scope (world_scope letters 3) ≡ some (world, letters 3 ∷ [])
parse-scopes_example = let (w, _, _) = parse-scopes letters letters_clear 3 1 2 (98 ∷ []) refl in w

dm_scope_same_example : dm_scope letters 3 1 2 ≡ dm_scope letters 3 2 1
dm_scope_same_example =
    (dm_scope_same letters letters_clear letters_known 3 1 2 3 2 1).1 (refl, inr (refl, refl))

-- " hi "
abbrev greeting : Text
greeting = 32 ∷ 104 ∷ 105 ∷ 32 ∷ []

validate_body-valid_example : validate_body (104 ∷ 105 ∷ []) ≡ valid (104 ∷ 105 ∷ [])
unfolding validate_body
validate_body-valid_example =
    let (_, _, _, _, again) = validate_body-valid greeting (104 ∷ 105 ∷ []) refl in again

attempts_bound_example :
    attempts [] 1 1000 (0 ∷ 5 ∷ 5 ∷ 5 ∷ 5 ∷ 5 ∷ []) * token ≤ 5 * token + 5 * 25
unfolding lookup
attempts_bound_example = attempts_bound [] 1 1000 (0 ∷ 5 ∷ 5 ∷ 5 ∷ 5 ∷ 5 ∷ []) refl

allow_waited_example : (allow (after [] 1 1000 (0 ∷ 5 ∷ 5 ∷ 5 ∷ 5 ∷ 5 ∷ [])) 1 300000000).1 ≡ true
unfolding lookup
allow_waited_example =
    allow_waited [] 1 1000 (0 ∷ 5 ∷ 5 ∷ 5 ∷ 5 ∷ 5 ∷ []) 300000000 refl (omega arith)

abbrev player : ℕ → Player
player user = record {
  match_id = 3;
  user_id = user;
  slot = user;
  color = "red";
  alive = true;
  controlled_by_ai = false;
  last_seen_at = none;
  joined_at = 0;
}

abbrev ports : Ports
ports = record {
  uuid_text = letters;
  parse_uuid = λ t. none;
  list_players = λ m. some (player 1 ∷ player 2 ∷ []);
  inserts = true;
  publishes = λ n. true;
}

abbrev quiet : Service
quiet = record { throttle = []; messages = []; published = [] }

abbrev hello : SendInput
hello = record {
  match_id = 3;
  author_id = 1;
  author_slot = 1;
  scope = world_scope letters 3;
  body = greeting;
}

send-Outcome_example : Outcome ports quiet hello 1000 (send ports quiet hello 77 1000)
send-Outcome_example = send-Outcome ports quiet hello 77 1000

allowed_bound_example :
    allowed (new_token_bucket 2 100 0) 0 (5 ∷ 5 ∷ 5 ∷ 200 ∷ [])
    ≤ 2 + 2 * renewals (new_token_bucket 2 100 0) 0 (5 ∷ 5 ∷ 5 ∷ 200 ∷ [])
unfolding new_token_bucket
allowed_bound_example =
    let (few, rare) =
      allowed_bound (new_token_bucket 2 100 0) 0 (5 ∷ 5 ∷ 5 ∷ 200 ∷ []) (omega arith) in
    few
