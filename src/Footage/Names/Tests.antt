-- ===== src/Footage/Names/Tests.antt =====
-- The names of some clips.
use artesca_vss_console.Common.{◌≤◌, String, true, ◌≡◌, refl, value, thrown}
use artesca_vss_console.Common.Texts.{take_chars, join, text_length}
use artesca_vss_console.Footage.Names.{
  PlaybackMode, sanitise_filename, base_name, divided, from_dot, to_dot, lower, lower_char, char_at,
  dash_runs, drop_dashes, drop_end_dashes, slug_of, footage_camera_id, without_extension,
  footage_rtsp_url, is_footage_camera,
}
use artesca_vss_console.Footage.Names.Safe.{
  IsSafe, sanitise_filename-IsSafe, footage_camera_id-recognised,
}

abbrev pub raw_name : String
raw_name = "C:\\clips/Store Theft (1).MP4"

pub safe_name : sanitise_filename raw_name ≡ value "store-theft-1.mp4"
unfolding sanitise_filename base_name divided from_dot to_dot lower lower_char char_at dash_runs
    drop_dashes drop_end_dashes slug_of take_chars
safe_name = refl

refused_name :
    sanitise_filename ".mp4"
    ≡ thrown "unsupported video format \".mp4\" — use one of .mp4, .ts, .mkv, .mov, .webm"
unfolding sanitise_filename base_name divided from_dot to_dot join
refused_name = refl

-- Two clips may have one camera: the extension goes, and so does what is behind 32 characters.
shared_camera : footage_camera_id "theft.mp4" ≡ footage_camera_id "theft.mkv"
unfolding footage_camera_id without_extension take_chars
shared_camera = refl

stream :
    footage_rtsp_url "replay" "8654" "theft.mp4" PlaybackMode.once
    ≡ "rtsp://replay:8654/once/theft.mp4"
unfolding footage_rtsp_url
stream = refl

sanitise_filename-IsSafe_example : IsSafe "store-theft-1.mp4"
sanitise_filename-IsSafe_example = sanitise_filename-IsSafe raw_name "store-theft-1.mp4" safe_name

footage_camera_id-recognised_example :
    (is_footage_camera (footage_camera_id "theft.mp4") ≡ true)
    × (text_length (footage_camera_id "theft.mp4") ≤ 32)
footage_camera_id-recognised_example = footage_camera_id-recognised "theft.mp4"
