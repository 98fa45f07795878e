-- ===== src/Nntp/Headers.antt =====
-- NetConn.go: the header of an article as a list of fields, and those that readDotLines leaves out.
use nzbre_x.Prelude.{Bool, true, List, [], ◌∷◌, ◌++◌, keep, ◌&&◌, not}
use nzbre_x.Nntp.{Line}
use nzbre_x.Nntp.Reader.{Options, is_dot, is_empty, has_any_prefix, is_spaced_line}

-- A field of a header: its first line, and the continued lines, which begin with a space or a tab.
pub record Field : Type 0 where
  pub first : Line
  pub continued : List Line

unfoldable pub field_lines : List Field → List Line
field_lines [] = []
field_lines (f ∷ fs) = f.first ∷ (f.continued ++ field_lines fs)

unfoldable pub all_spaced : List Line → Bool
unfolding is_spaced_line
all_spaced [] = true
all_spaced (line ∷ lines) = is_spaced_line line && all_spaced lines

unfoldable pub is_field : Field → Bool
unfolding all_spaced is_spaced_line is_dot
is_field f =
    not (is_empty f.first)
    && not (is_dot f.first)
    && not (is_spaced_line f.first)
    && all_spaced f.continued

unfoldable pub are_fields : List Field → Bool
unfolding is_field
are_fields [] = true
are_fields (f ∷ fs) = is_field f && are_fields fs

-- A key of the list of headers to leave out begins with a byte that is no space or tab.
unfoldable pub are_keys : List Line → Bool
unfolding is_spaced_line
are_keys [] = true
are_keys (key ∷ keys) = not (is_empty key) && not (is_spaced_line key) && are_keys keys

-- The fields that stay: all of them for the proxy, those without a listed key for an upload.
unfoldable pub left_out : Options → Field → Bool
unfolding has_any_prefix
left_out o f = o.clean_headers && not o.proxy && has_any_prefix f.first o.clean_header

unfoldable pub kept_fields : Options → List Field → List Field
unfolding left_out
kept_fields o fs = keep (λ f. not (left_out o f)) fs
