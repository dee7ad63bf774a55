-- ===== src/Apperr.antt =====
-- pkg/apperr/apperr.go: errors with an operation and a kind. An error is its text and the kind that
-- `errors.As` finds in its chain, if any; an absent error is an absent value.
use tgdownloader.Prelude.{
  Bool, true, false, Option, none, some, ◌++◌, Text, ◌==◌, list_eq, nat_eq, codes, ◌≡◌, refl,
}

pub data Kind : Type 0 where
  unknown config auth network io cancel internal : Kind

-- The texts of the constants.
unfoldable pub kind_text : Kind → Text
kind_text unknown = codes "unknown"
kind_text config = codes "config"
kind_text auth = codes "auth"
kind_text network = codes "network"
kind_text io = codes "io"
kind_text cancel = codes "cancel"
kind_text internal = codes "internal"

pub record Error : Type 0 where
  pub message : Text
  pub kind : Option Kind

abbrev pub plain_error : Text → Error
plain_error text = record { message = text; kind = none }

-- `Error.Error`, where the operation and the kind are not empty: every call gives both.
unfoldable pub error_text : Text → Kind → Text → Text
unfolding kind_text
error_text op kind text = op ++ codes " (" ++ kind_text kind ++ codes "): " ++ text

-- `New`.
unfoldable pub new_error : Text → Kind → Text → Error
new_error op kind text = record { message = error_text op kind text; kind = some kind }

abbrev pub known_kind : Option Kind → Kind
known_kind none = unknown
known_kind (some kind) = kind

-- `Wrap` of an error.
unfoldable pub wrap : Text → Error → Error
wrap op e = new_error op (known_kind e.kind) e.message

abbrev same_kind : Kind → Kind → Bool
same_kind a b = kind_text a == kind_text b

-- `IsKind`.
unfoldable pub is_kind : Option Error → Kind → Bool
is_kind none kind = false
is_kind (some e) kind = elim e.kind [ none ↦ false | some k ↦ same_kind k kind ]

wrapped_text :
    ((wrap (codes "cmd.run") (new_error (codes "yadisk.open") io (codes "broken"))).message
      ≡ codes "cmd.run (io): yadisk.open (io): broken")
    × (is_kind (some (wrap (codes "cmd.run") (plain_error (codes "broken")))) unknown ≡ true)
unfolding wrap new_error error_text is_kind kind_text
wrapped_text = (refl, refl)
