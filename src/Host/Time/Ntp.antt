-- ===== src/Host/Time/Ntp.antt =====
-- What the conditions on NTP say.
use Prim.Native.String.{◌++◌ as ◌⧺◌}
use troubleshoot.Prelude.{String, ◌≡◌, refl, Bool, true, false, ◌==◌}
use troubleshoot.Go.Result.{ok}
use troubleshoot.Host.Time.{TimeInfo, compare_host_time_status_to_actual}

data Sync : Type 0 where
  synchronized unsynchronized : Sync

data Activity : Type 0 where
  active inactive : Activity

abbrev status_word : Sync → Activity → String
status_word synchronized active = "synchronized+active"
status_word synchronized inactive = "synchronized+inactive"
status_word unsynchronized active = "unsynchronized+active"
status_word unsynchronized inactive = "unsynchronized+inactive"

abbrev sync_of : Bool → Sync
sync_of true = synchronized
sync_of false = unsynchronized

abbrev activity_of : Bool → Activity
activity_of true = active
activity_of false = inactive

-- Of the four conditions on NTP, that holds which has the status of the settings, and the others do not.
compare_host_time_status_to_actual_ntp :
    (sync : Sync) (activity : Activity) (info : TimeInfo)
    → compare_host_time_status_to_actual ("ntp == " ⧺ status_word sync activity) info
      ≡ ok (
          status_word sync activity
          == status_word (sync_of info.ntp_synchronized) (activity_of info.ntp_active))
unfolding compare_host_time_status_to_actual
compare_host_time_status_to_actual_ntp sync activity info =
    go sync activity info.timezone info.ntp_synchronized info.ntp_active
  where
    go :
        (sync : Sync) (activity : Activity) (zone : String) (s a : Bool)
        → compare_host_time_status_to_actual
            ("ntp == " ⧺ status_word sync activity)
            (record { timezone = zone; ntp_synchronized = s; ntp_active = a })
          ≡ ok (status_word sync activity == status_word (sync_of s) (activity_of a))
    go synchronized active zone true true = refl
    go synchronized active zone true false = refl
    go synchronized active zone false true = refl
    go synchronized active zone false false = refl
    go synchronized inactive zone true true = refl
    go synchronized inactive zone true false = refl
    go synchronized inactive zone false true = refl
    go synchronized inactive zone false false = refl
    go unsynchronized active zone true true = refl
    go unsynchronized active zone true false = refl
    go unsynchronized active zone false true = refl
    go unsynchronized active zone false false = refl
    go unsynchronized inactive zone true true = refl
    go unsynchronized inactive zone true false = refl
    go unsynchronized inactive zone false true = refl
    go unsynchronized inactive zone false false = refl
