-- ===== src/Nodes/Laws.antt =====
-- Properties of the helpers that the nodes share.
use z8run.Base.{String, Option, none, some, [], ◌∷◌, if◌then◌else◌, str_eq, ◌≡◌, refl}
use z8run.Json.{Value, null, bool, number, string, array, object, Fields, lookup, lookup-insert}
use z8run.Message.{FlowMessage}
use z8run.Nodes.{Outside, output, error_output_with_context, context_fields, ensure_error}

ensured :
    (error : String) (fs : Fields)
    → lookup "error" fs ≡ some (string error)
    → ensure_error error (lookup "error" fs) fs ≡ fs
ensured error fs e = rw e refl

context_error :
    (error : String) (context : Value)
    → lookup "error" (context_fields error context) ≡ some (string error)
unfolding lookup
context_error error null = refl
context_error error (bool b) = refl
context_error error (number n) = refl
context_error error (string s) = refl
context_error error (array vs) = refl
context_error error (object fs) = rw (lookup-insert "error" "error" (string error) fs) refl

-- What an error message carries under a key, if the context is given.
abbrev pub carried : (error : String) (context : Value) → String → Option Value
carried error (object fs) k = if str_eq "error" k then some (string error) else lookup k fs
carried error context k =
    if str_eq "error" k
    then some (string error)
    else if str_eq "context" k
    then some context
    else none

context_carries :
    (error : String) (context : Value) (k : String)
    → lookup k (context_fields error context) ≡ carried error context k
unfolding lookup
context_carries error null k = refl
context_carries error (bool b) k = refl
context_carries error (number n) k = refl
context_carries error (string s) k = refl
context_carries error (array vs) k = refl
context_carries error (object fs) k = lookup-insert "error" k (string error) fs

-- The failure of a node is one message, derived on its port "error"
-- from the message that failed. Under "error" it carries the text of the failure, also if the context has that key, and
-- else the entries of the context; a context that is not an object stands under "context".
pub error_output_with_context_lem :
    (w : Outside) (m : FlowMessage) (error : String) (context : Value)
    → (fs : Fields) × (error_output_with_context w m error context
        ≡ output w 0 m "error" (object fs) ∷ [])
      × ((k : String) → lookup k fs ≡ carried error context k)
unfolding error_output_with_context
error_output_with_context_lem w m error context = (
  context_fields error context,
  rw (ensured error (context_fields error context) (context_error error context)) refl,
  context_carries error context,
)
