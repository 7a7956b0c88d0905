-- ===== src/Policy/Json.antt =====
-- The values that Python's `json.loads` gives, and what escalation-proxy/app/caller_policy.py asks of
-- them. A number is an integer, or a fraction with its integer part and the text that `str` gives.
use Prim.Native.Nat.{zero, suc}
use mathlib.Core.Bool.{Bool, true, false, not}
use mathlib.Core.Option.{Option, none, some}
use sre_agent_team.Base.Int.{ℤ, pos, negsuc}
use sre_agent_team.Base.{String, ◌==◌, if◌then◌else◌}

mutual
  pub data Json : Type 0 where
    null : Json
    bool : Bool → Json
    int : ℤ → Json
    fraction : ℤ → String → Json
    text : String → Json
    array : Items → Json
    object : Fields → Json

  pub data Items : Type 0 where
    nil : Items
    cons : Json → Items → Items

  pub data Fields : Type 0 where
    end : Fields
    field : String → Json → Fields → Fields

-- `d.get(key)`, where the dict of an object holds each key once.
unfoldable pub get_field : String → Fields → Option Json
get_field key end = none
get_field key (field k v fs) = if k == key then some v else get_field key fs

-- `bool(v)`; a fraction is not 0 where its text is neither "0.0" nor "-0.0".
unfoldable pub truth : Json → Bool
truth null = false
truth (bool b) = b
truth (int (pos zero)) = false
truth (int (pos (suc n))) = true
truth (int (negsuc n)) = true
truth (fraction whole printed) = if printed == "0.0" then false else not (printed == "-0.0")
truth (text s) = not (s == "")
truth (array nil) = false
truth (array (cons v vs)) = true
truth (object end) = false
truth (object (field k v fs)) = true
