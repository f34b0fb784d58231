-- ===== src/Rtsp/Status.antt =====
-- get_stat.cpp
use rtsp_server.Base.{ℕ, List, [], ◌∷◌, Option, none, some, ◌==◌, if◌then◌else◌, codes}
use rtsp_server.Rtsp.Text.{Bytes}

-- The table `status`, less its last entry.
abbrev pub status : List (ℕ × Bytes)
status =
    (100, codes "Continue")
    ∷ (200, codes "OK")
    ∷ (201, codes "Created")
    ∷ (202, codes "Accepted")
    ∷ (203, codes "Non-Authoritative Information")
    ∷ (204, codes "No Content")
    ∷ (205, codes "Reset Content")
    ∷ (206, codes "Partial Content")
    ∷ (300, codes "Multiple Choices")
    ∷ (301, codes "Moved Permanently")
    ∷ (302, codes "Moved Temporarily")
    ∷ (400, codes "Bad Request")
    ∷ (401, codes "Unauthorized")
    ∷ (402, codes "Payment Required")
    ∷ (403, codes "Forbidden")
    ∷ (404, codes "Not Found")
    ∷ (405, codes "Method Not Allowed")
    ∷ (406, codes "Not Acceptable")
    ∷ (407, codes "Proxy Authentication Required")
    ∷ (408, codes "Request Time-out")
    ∷ (409, codes "Conflict")
    ∷ (410, codes "Gone")
    ∷ (411, codes "Length Required")
    ∷ (412, codes "Precondition Failed")
    ∷ (413, codes "Request Entity Too Large")
    ∷ (414, codes "Request-URI Too Large")
    ∷ (415, codes "Unsupported Media Type")
    ∷ (420, codes "Bad Extension")
    ∷ (450, codes "Invalid Parameter")
    ∷ (451, codes "Parameter Not Understood")
    ∷ (452, codes "Conference Not Found")
    ∷ (453, codes "Not Enough Bandwidth")
    ∷ (454, codes "Session Not Found")
    ∷ (455, codes "Method Not Valid In This State")
    ∷ (456, codes "Header Field Not Valid for Resource")
    ∷ (457, codes "Invalid Range")
    ∷ (458, codes "Parameter Is Read-Only")
    ∷ (461, codes "Unsupported transport")
    ∷ (500, codes "Internal Server Error")
    ∷ (501, codes "Not Implemented")
    ∷ (502, codes "Bad Gateway")
    ∷ (503, codes "Service Unavailable")
    ∷ (504, codes "Gateway Time-out")
    ∷ (505, codes "RTSP Version Not Supported")
    ∷ (551, codes "Option not supported")
    ∷ (911, codes "Extended Error:")
    ∷ []

unfoldable pub find_token : ℕ → List (ℕ × Bytes) → Option Bytes
find_token err [] = none
find_token err ((code, token) ∷ more) = if code == err then some token else find_token err more

-- get_stat: `none` is the null pointer.
unfoldable pub get_stat : ℕ → Option Bytes
unfolding find_token
get_stat err = find_token err status
