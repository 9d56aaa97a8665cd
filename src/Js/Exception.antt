-- ===== src/Js/Exception.antt =====
-- What JavaScript code throws, and how a call ends. An engine's own TypeErrors are `error` with
-- the text that V8 gives them.
use motionmesh.Base.{String, ◌⧺◌}
use motionmesh.Js.Value.{Value, undefined, null, get, to_string}

pub data Exception : Type 0 where
  error : String → Exception
  plan_required : Value → Exception

-- `e.message`
abbrev pub message : Exception → String
message (error s) = s
message (plan_required plan) = "This feature requires the " ⧺ (to_string plan ⧺ " plan")

pub data Result {ℓ} (A : Type ℓ) : Type ℓ where
  ok : A → Result A
  thrown : Exception → Result A

abbrev cannot_read : String → String → Exception
cannot_read what k = error ("Cannot read properties of " ⧺ (what ⧺ (" (reading '" ⧺ (k ⧺ "')"))))

-- `v.k`
abbrev pub read : String → Value → Result Value
read k undefined = thrown (cannot_read "undefined" k)
read k null = thrown (cannot_read "null" k)
read k v = ok (get k v)
