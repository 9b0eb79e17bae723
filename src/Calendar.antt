-- ===== src/Calendar.antt =====
-- calendar.go
use Prim.Native.String.{◌++◌ as append}
use protonmail_go.Prelude.{ℕ, String, Option, List, ℤ, [], insert, is_positive}
use protonmail_go.Result.{Result}
use protonmail_go.Text.{itoa}
use protonmail_go.Http.{Bytes}
use protonmail_go.Client.{Config}
use protonmail_go.Transport.{Act, Envelope, Wire}
use protonmail_go.Endpoint.{Values, QueryEncode, fetch}
use protonmail_go.Messages.{set_if}

abbrev pub calendar_path : String
calendar_path = "/calendar/v1"

pub record Calendar : Type 0 where
  pub id : String
  pub name : String
  pub description : String
  pub color : String
  pub display : ℤ
  pub flags : ℤ

pub record CalendarEventCard : Type 0 where
  pub type : ℤ
  pub data_text : String
  pub signature : String
  pub member_id : String

-- The untyped JSON value `CalendarEvents` is its bytes.
pub record CalendarEvent : Type 0 where
  pub id : String
  pub calendar_id : String
  pub calendar_key_packet : String
  pub create_time : ℤ
  pub last_edit_time : ℤ
  pub author : String
  pub permissions : ℤ
  pub shared_key_packet : String
  pub shared_events : List CalendarEventCard
  pub calendar_events : Bytes
  pub personal_event : List CalendarEventCard

pub record CalendarEventFilter : Type 0 where
  pub start : ℤ
  pub end_time : ℤ
  pub timezone : String
  pub page : ℤ
  pub page_size : ℤ

-- The page, and the page size if it is positive.
unfoldable pub page_values : ℤ → ℤ → Values → Values
page_values page page_size v =
    set_if (is_positive page_size) "PageSize" (itoa page_size) (insert "Page" (itoa page) v)

unfoldable pub event_values : CalendarEventFilter → Values
unfolding page_values
event_values f = page_values f.page f.page_size (
    insert "Timezone" f.timezone
      (insert "End" (itoa f.end_time) (insert "Start" (itoa f.start) [])))

module _ {W : Type 0} (fuel : ℕ) (wire : Wire) (cfg : Config W) (encode : QueryEncode) where
  -- `(*Client).ListCalendars`
  unfoldable pub list_calendars :
      (Bytes → Result (Envelope (List (Option Calendar)))) → ℤ → ℤ → Act W (List (Option Calendar))
  list_calendars decode page page_size =
      fetch fuel wire cfg "GET"
        (append calendar_path (append "?" (encode (page_values page page_size [])))) decode

  -- `(*Client).ListCalendarEvents`
  unfoldable pub list_calendar_events :
      (Bytes → Result (Envelope (List (Option CalendarEvent))))
      → String
      → CalendarEventFilter
      → Act W (List (Option CalendarEvent))
  list_calendar_events decode calendar_id filter =
      fetch fuel wire cfg "GET"
        (append calendar_path
          (append "/" (append calendar_id (append "/events?" (encode (event_values filter))))))
        decode
