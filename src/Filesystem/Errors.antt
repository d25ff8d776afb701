-- ===== src/Filesystem/Errors.antt =====
-- filesystem/error.go, and the two errors that filesystem/path.go declares.
use primordium.Errors.{Error, sentinel}

abbrev pub err_lock_fail : Error
err_lock_fail = sentinel 20

abbrev pub err_lock_would_block : Error
err_lock_would_block = sentinel 21

abbrev pub err_unlock_fail : Error
err_unlock_fail = sentinel 22

abbrev pub err_atomic_write_fail : Error
err_atomic_write_fail = sentinel 23

abbrev pub err_lock_is_nil : Error
err_lock_is_nil = sentinel 24

abbrev pub err_invalid_path : Error
err_invalid_path = sentinel 25

abbrev pub err_generic_failure : Error
err_generic_failure = sentinel 26

abbrev pub err_buffer_failure : Error
err_buffer_failure = sentinel 27

abbrev pub err_invalid_path_too_long : Error
err_invalid_path_too_long = sentinel 28

abbrev pub err_invalid_path_empty : Error
err_invalid_path_empty = sentinel 29

abbrev pub err_forbidden_chars : Error
err_forbidden_chars = sentinel 30

abbrev pub err_forbidden_keywords : Error
err_forbidden_keywords = sentinel 31

abbrev pub err_no_ending_space_dot : Error
err_no_ending_space_dot = sentinel 32
